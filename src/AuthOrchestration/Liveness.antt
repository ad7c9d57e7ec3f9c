-- ===== src/AuthOrchestration/Liveness.antt =====
-- A session of services/auth_orchestration/veripay_auth_orchestration/service.py can be completed.
use veri_pay.AuthOrchestration.Approval.{FactorsPresented, complete_session-approves}
use veri_pay.AuthOrchestration.Binding.{IsBound}
use veri_pay.AuthOrchestration.Completion.{complete_session, result_of}
use veri_pay.AuthOrchestration.Creation.{create_session}
use veri_pay.AuthOrchestration.Opened.{IsReady, Opened, create_session-Opened}
use veri_pay.AuthOrchestration.Requests.{
  VerificationCompletionRequest, VerificationSession, VerificationSessionRequest,
}
use veri_pay.AuthOrchestration.Service.{Draws, Providers, Service, save}
use veri_pay.Common.{
  String, Text, arith, false, leb, list_eq, nat_eq, none, ok, option_eq, refl, seconds, some,
  string_eq, sym, true, ℕ, ◌+◌, ◌<◌, ◌==◌, ◌∙◌, ◌≡◌,
}
use veri_pay.Enums.Dispute.{dispute_reason_eq, dispute_status_eq}
use veri_pay.Enums.Payment.{
  VerificationOutcome, channel_eq, payment_rail_eq, processing_path_eq, verification_outcome_eq,
}
use veri_pay.Enums.Risk.{RiskTier, decision_action_eq, risk_band_eq, risk_tier_eq}
use veri_pay.Enums.Token.{token_status_eq}
use veri_pay.Enums.Trust.{
  device_platform_eq, device_trust_state_eq, gpv_outcome_eq, sca_exemption_eq,
}
use veri_pay.Security.Token.{verify_again}

-- The completion that presents everything: the token, the exact payment, an assertion and a swipe.
abbrev pub full_completion :
    VerificationSessionRequest → VerificationSession → Text → String → VerificationCompletionRequest
full_completion r s token assertion = record {
  token = token;
  outcome = VerificationOutcome.approved;
  exact_amount_minor = some s.amount_minor;
  exact_currency = some r.currency;
  biometric_assertion = some assertion;
  confirmation_swipe = true;
  denial_reason = none;
}

module _ (env : Providers) (r : VerificationSessionRequest) (d : Draws) (svc after : Service)
    (s : VerificationSession) (token : Text) (o : Opened env r d svc after s token)
    (assertion : String) where
  full_factors :
      (t : RiskTier)
      → (assertion == "") ≡ false
      → env.verify_biometric assertion r.device_id r.transaction_id ≡ true
      → FactorsPresented env s (full_completion r s token assertion) t
  full_factors RiskTier.no_risk h g = tt
  full_factors RiskTier.low h g = tt
  full_factors RiskTier.moderate h g = (rw h refl, rw (o.same_device, o.same_transaction) g)
  full_factors RiskTier.high h g =
      (refl, sym o.same_currency, (rw h refl, rw (o.same_device, o.same_transaction) g), refl)

  full_completion-IsBound :
      (now : ℕ) → now < s.expires_at → IsBound env now (full_completion r s token assertion) s
  full_completion-IsBound now live = record {
    waiting = o.waiting;
    same_digest = o.bound;
    claims = o.claims;
    verified =
        let early : leb o.claims.expires_at now ≡ false = ground (arith, o.claims_expire, live) in
        verify_again env.crypto env.secret token d.now now o.claims o.verified ∙ rw early refl;
    same_session = o.claims_session;
    same_transaction = o.claims_transaction;
    same_device = o.claims_device;
    same_token = o.claims_token;
  }

-- A payer can always finish in time: a request that is ready is answered with a session and a token
-- such that at any instants before the time to live is over, whatever the tier, the completion with
-- this token, the session's amount, the requested currency, a confirming swipe and an assertion that
-- the platform accepts is approved, and leaves the session stored as approved, not locked and not
-- escalated.
pub create_session-completable :
    (env : Providers) (r : VerificationSessionRequest) (d : Draws) (svc : Service) (now later : ℕ)
    (assertion : String)
    → IsReady env r d
    → now < d.now + seconds r.ttl_seconds
    → later < d.now + seconds r.ttl_seconds
    → (assertion == "") ≡ false
    → env.verify_biometric assertion r.device_id r.transaction_id ≡ true
    → (s : VerificationSession) × (token : Text) × (reason : String) × ((create_session env r d
          svc).0
        ≡ ok (s, token))
      × (let approved = record s {
        outcome = VerificationOutcome.approved;
        temporary_lock = false;
        escalation_required = false;
      } in
          complete_session env now later s.session_id
            (full_completion r s token assertion)
            (create_session env r d svc).1
          ≡ (ok (result_of approved reason now), save approved (create_session env r d svc).1))
create_session-completable env r d svc now later assertion ready soon live given accepted =
    let (s, token, created, o) = create_session-Opened env r d svc ready in
    let after = (create_session env r d svc).1 in
    let (reason, done_so) =
      complete_session-approves env now later s.session_id (full_completion r s token assertion)
        after s o.stored
        (full_completion-IsBound env r d svc after s token o assertion now
          (omega (arith, soon, o.lifetime)))
        (omega (arith, live, o.lifetime)) refl
        (full_factors env r d svc after s token o assertion s.risk_tier given accepted) in
    (s, token, reason, created, done_so)
