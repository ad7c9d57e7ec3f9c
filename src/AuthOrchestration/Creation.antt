-- ===== src/AuthOrchestration/Creation.antt =====
-- `create_session` of services/auth_orchestration/veripay_auth_orchestration/service.py.
use veri_pay.AuthOrchestration.Requests.{VerificationSession, VerificationSessionRequest}
use veri_pay.AuthOrchestration.Service.{
  Draws, Providers, Service, VerificationError, assertion_failed, dispatch, invalid_claims,
  policy_failed, save, tier_value, token_failed,
}
use veri_pay.Common.{
  Result, Text, err, false, guard, if◌then◌else◌, not, ok, or_raise, raise_as, text_append, ℕ, ◌==◌,
  ◌>>=◌, ◌>>◌,
}
use veri_pay.Enums.Payment.{ProcessingPath, VerificationOutcome}
use veri_pay.Enums.Risk.{RiskTier, risk_tier_eq}
use veri_pay.RiskPolicy.{TierPolicy, policy_for_tier}
use veri_pay.Security.{VerificationTokenClaims, issue, valid_claims, verify}

abbrev pub claims_of :
    Providers → VerificationSessionRequest → RiskTier → Draws → VerificationTokenClaims
claims_of env r tier d = record {
  session_id = text_append "verify_" d.session_hex;
  transaction_id = r.transaction_id;
  device_id = r.device_id;
  nonce = d.nonce;
  amount_minor = r.amount_minor;
  currency = env.upper r.currency;
  risk_tier = tier_value tier;
  issued_at = d.now;
  expires_at = d.now;
  token_id = text_append "token_" d.token_hex;
}

-- The session that `create_session` builds.
abbrev pub session_of :
    Providers
    → VerificationSessionRequest
    → RiskTier
    → ProcessingPath
    → TierPolicy
    → Draws
    → ℕ
    → Text
    → VerificationSession
session_of env r tier path policy d expires_at token = record {
  session_id = text_append "verify_" d.session_hex;
  transaction_id = r.transaction_id;
  device_id = r.device_id;
  amount_minor = r.amount_minor;
  currency = env.upper r.currency;
  risk_tier = tier;
  processing_path = path;
  friction = policy.friction;
  workflow = policy.workflow;
  timeout_seconds = policy.timeout_seconds;
  expires_at = expires_at;
  token_id = text_append "token_" d.token_hex;
  token_digest = env.digest token;
  outcome = VerificationOutcome.pending;
  temporary_lock = false;
  escalation_required = false;
  created_at = d.now;
}

-- `create_session` from the save on
unfoldable pub keep_session : VerificationSession → Service → Service
keep_session s svc =
    if not (s.risk_tier == RiskTier.no_risk) then dispatch s (save s svc) else save s svc

module _ (env : Providers) where
  open env use {crypto, secret}

  -- `create_session` up to the save: the session and its token, or the exception.
  unfoldable pub prepare_session :
      VerificationSessionRequest → Draws → Result VerificationError (VerificationSession × Text)
  prepare_session r d = do
    tier ← or_raise r.risk_tier assertion_failed
    path ← or_raise r.processing_path assertion_failed
    policy ← raise_as policy_failed (policy_for_tier tier)
    let claims = claims_of env r tier d
    guard (valid_claims claims) invalid_claims
    token ← raise_as token_failed (issue crypto secret claims r.ttl_seconds)
    parsed ← raise_as token_failed (verify crypto secret token d.now)
    ok (session_of env r tier path policy d parsed.expires_at token, token)

  unfoldable pub create_session :
      VerificationSessionRequest
      → Draws
      → Service
      → Result VerificationError (VerificationSession × Text) × Service
  create_session r d svc = elim (prepare_session r d) [
    | err e ↦ (err e, svc)
    | ok (s, token) ↦ (ok (s, token), keep_session s svc)
  ]
