-- ===== src/AuthOrchestration/Approval.antt =====
-- When `complete_session` of the auth orchestration approves, and which checks it makes before.
use veri_pay.AuthOrchestration.Binding.{
  IsBound, IsBound-check_binding, check_binding-IsBound, complete_session-bound,
  complete_session-eq-ok,
}
use veri_pay.AuthOrchestration.Completion.{
  biometric_error, complete_session, decide_session, high_error, result_of, settle,
  validate_workflow,
}
use veri_pay.AuthOrchestration.Requests.{
  VerificationCompletionRequest, VerificationResult, VerificationSession,
}
use veri_pay.AuthOrchestration.Service.{Providers, Service, VerificationError, save}
use veri_pay.Common.{
  Result, String, ap, arith, beq_refl, false, get_or, inl, inr, lookup, nat_eq, none, ok,
  option_beq_iff, option_eq, refl, some, string_eq, sym, text_refl, text_true, true, ℕ, ◌<◌, ◌∙◌,
  ◌≡◌, ◌≢◌, ◌⊎◌,
}
use veri_pay.Enums.Payment.{VerificationOutcome}
use veri_pay.Enums.Risk.{RiskTier}

-- The request carries an assertion that the platform accepts for the session.
abbrev pub BiometricPresented :
    Providers → VerificationSession → VerificationCompletionRequest → Type 0
BiometricPresented env s r =
    (text_true r.biometric_assertion ≡ true)
    × (env.verify_biometric (get_or r.biometric_assertion "") s.device_id s.transaction_id ≡ true)

-- The factors of a tier: none, one tap, a biometric, or the exact payment, a biometric and a swipe.
abbrev pub FactorsPresented :
    Providers → VerificationSession → VerificationCompletionRequest → RiskTier → Type 0
FactorsPresented env s r RiskTier.no_risk = Unit
FactorsPresented env s r RiskTier.low = Unit
FactorsPresented env s r RiskTier.moderate = BiometricPresented env s r
FactorsPresented env s r RiskTier.high =
    (r.exact_amount_minor ≡ some s.amount_minor)
    × (env.upper (get_or r.exact_currency "") ≡ s.currency)
    × BiometricPresented env s r
    × (r.confirmation_swipe ≡ true)

module _ (env : Providers) (r : VerificationCompletionRequest) (s : VerificationSession) where
  BiometricPresented-of : biometric_error env s r ≡ none → BiometricPresented env s r
  unfolding biometric_error
  BiometricPresented-of h = ground arith

  high_error-none : high_error env s r ≡ none → FactorsPresented env s r RiskTier.high
  unfolding high_error
  high_error-none h = ground (
    arith,
    BiometricPresented-of,
    option_beq_iff ⦃e = nat_eq⦄ r.exact_amount_minor (some s.amount_minor),
    string_eq.beq_iff (env.upper (get_or r.exact_currency "")) s.currency,
  )

  factors_of_tier :
      (t : RiskTier)
      → s.risk_tier ≡ t
      → r.outcome ≡ VerificationOutcome.approved
      → validate_workflow env s r ≡ none
      → FactorsPresented env s r t
  unfolding validate_workflow
  factors_of_tier RiskTier.no_risk e asked h = tt
  factors_of_tier RiskTier.low e asked h = tt
  factors_of_tier RiskTier.moderate e asked h = BiometricPresented-of (ground arith)
  factors_of_tier RiskTier.high e asked h = high_error-none (ground arith)

  biometric_error_of : BiometricPresented env s r → biometric_error env s r ≡ none
  unfolding biometric_error
  biometric_error_of h = ground arith

  high_error_of : FactorsPresented env s r RiskTier.high → high_error env s r ≡ none
  unfolding high_error
  high_error_of (amount, currency, biometric, swipe) = simp (
    amount,
    currency,
    beq_refl ⦃e = option_eq ⦃e = nat_eq⦄⦄ (some s.amount_minor),
    text_refl,
    biometric_error_of biometric,
    swipe,
  )

  workflow_of_tier :
      (t : RiskTier)
      → s.risk_tier ≡ t
      → r.outcome ≡ VerificationOutcome.approved
      → FactorsPresented env s r t
      → validate_workflow env s r ≡ none
  unfolding validate_workflow
  workflow_of_tier RiskTier.no_risk e asked h = ground arith
  workflow_of_tier RiskTier.low e asked h = ground arith
  workflow_of_tier RiskTier.moderate e asked h = ground (arith, biometric_error_of h)
  workflow_of_tier RiskTier.high e asked h = ground (arith, high_error_of h)

  -- Before the expiry, with every factor, `settle` approves.
  settle-validated :
      (later : ℕ)
      → later < s.expires_at
      → r.outcome ≡ VerificationOutcome.approved
      → FactorsPresented env s r s.risk_tier
      → (settle env later r s).0 ≡ record s {
        outcome = VerificationOutcome.approved;
        temporary_lock = false;
        escalation_required = false;
      }
  unfolding settle decide_session
  settle-validated later live asked factors =
      ground (arith, workflow_of_tier s.risk_tier refl asked factors)

  -- `settle` approves before the expiry, and after a clean validation.
  settle-approved :
      (later : ℕ)
      → (settle env later r s).0.outcome ≡ VerificationOutcome.approved
      → (later < s.expires_at) × (validate_workflow env s r ≡ none)
  unfolding settle
  settle-approved later h = ground arith

  -- `settle` with an outcome that is neither APPROVED nor DENIED, before the expiry.
  settle-unvalidated :
      (later : ℕ)
      → later < s.expires_at
      → r.outcome ≢ VerificationOutcome.approved
      → r.outcome ≢ VerificationOutcome.denied
      → ((settle env later r s).0.outcome ≡ VerificationOutcome.approved)
        × ((settle env later r s).1 ≡ "VERIFICATION_APPROVED")
  unfolding settle validate_workflow decide_session
  settle-unvalidated later live not_approved not_denied = ground arith

asked_or_not :
    (o : VerificationOutcome)
    → (o ≡ VerificationOutcome.approved) ⊎ (o ≢ VerificationOutcome.approved)
asked_or_not o = ground arith

-- If a completion returns an approval, then a session is stored under the identifier, it waits and
-- is bound to the token of the request, it had not expired, and either the request does not ask for
-- APPROVED or it presents every factor that the tier of the session wants.
pub complete_session-approved :
    (env : Providers) (now later : ℕ) (id : String) (r : VerificationCompletionRequest)
    (svc : Service) (res : VerificationResult)
    → (complete_session env now later id r svc).0 ≡ ok res
    → res.outcome ≡ VerificationOutcome.approved
    → (s : VerificationSession) × (lookup id svc.sessions ≡ some s)
      × IsBound env now r s
      × (later < s.expires_at)
      × ((r.outcome ≢ VerificationOutcome.approved) ⊎ FactorsPresented env s r s.risk_tier)
complete_session-approved env now later id r svc res answered approved =
    let (s, found, bound, same) = complete_session-eq-ok env now later id r svc res answered in
    let (live, clean) = settle-approved env r s later (ap (λ x. x.outcome) (sym same) ∙ approved) in
    (
      s,
      found,
      check_binding-IsBound env now r s bound,
      live,
      elim (asked_or_not r.outcome) [
        | inl asked ↦ inr (factors_of_tier env r s s.risk_tier refl asked clean)
        | inr other ↦ inl other
      ],
    )

-- A stored and bound session that has not expired is approved by a request whose outcome is
-- neither APPROVED nor DENIED, whatever its tier and without any factor.
pub complete_session-unvalidated :
    (env : Providers) (now later : ℕ) (id : String) (r : VerificationCompletionRequest)
    (svc : Service) (s : VerificationSession)
    → lookup id svc.sessions ≡ some s
    → IsBound env now r s
    → later < s.expires_at
    → r.outcome ≢ VerificationOutcome.approved
    → r.outcome ≢ VerificationOutcome.denied
    → (res : VerificationResult) × ((complete_session env now later id r svc).0 ≡ ok res)
      × (res.outcome ≡ VerificationOutcome.approved)
      × (res.reason_code ≡ "VERIFICATION_APPROVED")
complete_session-unvalidated env now later id r svc s found bound live not_approved not_denied =
    let (approved, reason) = settle-unvalidated env r s later live not_approved not_denied in
    (
      result_of (settle env later r s).0 (settle env later r s).1 now,
      ap (λ a. a.0)
          (complete_session-bound env now later id r svc s found
            (IsBound-check_binding env now r s bound)),
      approved,
      reason,
    )

-- A stored and bound session that has not expired is approved by a request for it that presents
-- every factor of its tier: the answer says so, and the stored session is approved, not locked and
-- not escalated.
pub complete_session-approves :
    (env : Providers) (now later : ℕ) (id : String) (r : VerificationCompletionRequest)
    (svc : Service) (s : VerificationSession)
    → lookup id svc.sessions ≡ some s
    → IsBound env now r s
    → later < s.expires_at
    → r.outcome ≡ VerificationOutcome.approved
    → FactorsPresented env s r s.risk_tier
    → let approved = record s {
      outcome = VerificationOutcome.approved;
      temporary_lock = false;
      escalation_required = false;
    } in
      (reason : String) × (complete_session env now later id r svc
        ≡ (ok (result_of approved reason now), save approved svc))
complete_session-approves env now later id r svc s found bound live asked factors =
    let answer : VerificationSession → Result VerificationError VerificationResult × Service =
      λ x. (ok (result_of x (settle env later r s).1 now), save x svc) in
    (
      (settle env later r s).1,
      complete_session-bound env now later id r svc s found
            (IsBound-check_binding env now r s bound)
          ∙ ap answer (settle-validated env r s later live asked factors),
    )
