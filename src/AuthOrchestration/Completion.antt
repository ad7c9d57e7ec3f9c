-- ===== src/AuthOrchestration/Completion.antt =====
-- `complete_session` and `expire_session` of
-- services/auth_orchestration/veripay_auth_orchestration/service.py.
use veri_pay.AuthOrchestration.Requests.{
  VerificationCompletionRequest, VerificationResult, VerificationSession,
}
use veri_pay.AuthOrchestration.Service.{
  Providers, Service, VerificationError, already_completed, binding_failed, claims_mismatch, save,
  session_not_found, token_failed, token_unrecoverable,
}
use veri_pay.Common.{
  Bool, Option, Result, String, [], contains, err, get_or, guard, if◌then◌else◌, leb, lookup,
  nat_eq, none, not, ok, option_eq, or_else, raise_as, some, string_eq, text_true, ℕ, ◌&&◌, ◌==◌,
  ◌>>=◌, ◌>>◌, ◌∷◌,
}
use veri_pay.Enums.Payment.{VerificationOutcome, verification_outcome_eq}
use veri_pay.Enums.Risk.{RiskTier, risk_tier_eq}
use veri_pay.Security.{VerificationTokenClaims, verify}

abbrev pub claims_match : VerificationTokenClaims → VerificationSession → Bool
claims_match claims s =
    claims.session_id == s.session_id
    && claims.transaction_id == s.transaction_id
    && claims.device_id == s.device_id
    && claims.token_id == s.token_id

-- How a session that has not been approved is marked.
abbrev pub refuse : VerificationOutcome → VerificationSession → VerificationSession
refuse o s = record s {
  outcome = if s.risk_tier == RiskTier.high then VerificationOutcome.escalated else o;
  temporary_lock = s.risk_tier == RiskTier.moderate;
  escalation_required = s.risk_tier == RiskTier.high;
}

-- The last part of `complete_session`: the requested outcome is carried out.
unfoldable pub decide_session :
    VerificationCompletionRequest → VerificationSession → VerificationSession × String
decide_session r s =
    let denied = r.outcome == VerificationOutcome.denied in
    let outcome : VerificationOutcome =
      if denied
      then (if s.risk_tier == RiskTier.high
          then VerificationOutcome.escalated
          else VerificationOutcome.denied)
      else VerificationOutcome.approved in
    (
      record s {
        outcome = outcome;
        temporary_lock =
            s.risk_tier == RiskTier.moderate && not (outcome == VerificationOutcome.approved);
        escalation_required =
            s.risk_tier == RiskTier.high && not (outcome == VerificationOutcome.approved);
      },
      if denied
          then (if text_true r.denial_reason then get_or r.denial_reason "" else "USER_DENIED")
          else "VERIFICATION_APPROVED",
    )

abbrev pub result_of : VerificationSession → String → ℕ → VerificationResult
result_of s reason now = record {
  session_id = s.session_id;
  transaction_id = s.transaction_id;
  outcome = s.outcome;
  risk_tier = s.risk_tier;
  temporary_lock = s.temporary_lock;
  escalation_required = s.escalation_required;
  reason_code = reason;
  completed_at = now;
}

module _ (env : Providers) where
  open env use {crypto, secret, digest, upper, verify_biometric}

  -- The biometric factor, of both tiers that ask for it.
  unfoldable pub biometric_error :
      VerificationSession → VerificationCompletionRequest → Option String
  biometric_error s r =
      if not (text_true r.biometric_assertion)
      then some "BIOMETRIC_ASSERTION_REQUIRED"
      else if not (verify_biometric (get_or r.biometric_assertion "") s.device_id s.transaction_id)
      then some "BIOMETRIC_ASSERTION_REJECTED"
      else none

  -- `_validate_workflow` of a HIGH session
  unfoldable pub high_error : VerificationSession → VerificationCompletionRequest → Option String
  high_error s r =
      if not (r.exact_amount_minor == some s.amount_minor)
      then some "EXACT_AMOUNT_MISMATCH"
      else if not (upper (get_or r.exact_currency "") == s.currency)
      then some "EXACT_CURRENCY_MISMATCH"
      else or_else (biometric_error s r)
          (if not r.confirmation_swipe then some "CONFIRMATION_SWIPE_REQUIRED" else none)

  -- `_validate_workflow`
  unfoldable pub validate_workflow :
      VerificationSession → VerificationCompletionRequest → Option String
  validate_workflow s r =
      if not (contains r.outcome (VerificationOutcome.approved ∷ VerificationOutcome.denied ∷ []))
      then none
      else if r.outcome == VerificationOutcome.denied
      then none
      else if s.risk_tier == RiskTier.no_risk
      then none
      else if s.risk_tier == RiskTier.moderate
      then biometric_error s r
      else if s.risk_tier == RiskTier.high
      then high_error s r
      else none

  -- The checks of `complete_session` before the session is touched; the first clock reading.
  unfoldable pub check_binding :
      ℕ → VerificationCompletionRequest → VerificationSession → Result VerificationError Unit
  check_binding now r s = do
    guard (s.outcome == VerificationOutcome.pending) already_completed
    guard (digest r.token == s.token_digest) binding_failed
    claims ← raise_as token_failed (verify crypto secret r.token now)
    guard (claims_match claims s) claims_mismatch

  -- The three ways in which a bound session ends; the second clock reading, that of `_expired`.
  unfoldable pub settle :
      ℕ → VerificationCompletionRequest → VerificationSession → VerificationSession × String
  settle now r s =
      if leb s.expires_at now
      then (refuse VerificationOutcome.timed_out s, "VERIFICATION_TIMEOUT")
      else elim (validate_workflow s r) [
        | some e ↦ (refuse VerificationOutcome.denied s, e)
        | none ↦ decide_session r s
      ]

  unfoldable pub complete_found :
      ℕ
      → ℕ
      → VerificationCompletionRequest
      → VerificationSession
      → Service
      → Result VerificationError VerificationResult × Service
  complete_found now later r s svc = elim (check_binding now r s) [
    | err e ↦ (err e, svc)
    | ok _ ↦ let (s', reason) = settle later r s in (ok (result_of s' reason now), save s' svc)
  ]

  -- `now` is the method's own reading of the clock and `later` that of `_expired`.
  unfoldable pub complete_session :
      ℕ
      → ℕ
      → String
      → VerificationCompletionRequest
      → Service
      → Result VerificationError VerificationResult × Service
  complete_session now later session_id r svc = elim (lookup session_id svc.sessions) [
    | none ↦ (err session_not_found, svc)
    | some s ↦ complete_found now later r s svc
  ]

-- `expire_session`: `_token_for_expiration` raises whatever the session is.
unfoldable pub expire_session :
    String → Service → Result VerificationError VerificationResult × Service
expire_session session_id svc = elim (lookup session_id svc.sessions) [
  | none ↦ (err session_not_found, svc)
  | some s ↦ (err token_unrecoverable, svc)
]
