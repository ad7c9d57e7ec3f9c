-- ===== src/Tests/Auth.antt =====
-- The theorems of the auth orchestration and of its tokens, at a session of tier HIGH.
use veri_pay.AuthOrchestration.Approval.{
  FactorsPresented, complete_session-approved, complete_session-unvalidated,
}
use veri_pay.AuthOrchestration.Binding.{IsBound}
use veri_pay.AuthOrchestration.Completion.{complete_session, result_of}
use veri_pay.AuthOrchestration.Creation.{create_session, keep_session}
use veri_pay.AuthOrchestration.Expiry.{complete_session_expired}
use veri_pay.AuthOrchestration.Liveness.{create_session-completable, full_completion}
use veri_pay.AuthOrchestration.Once.{complete_session_once}
use veri_pay.AuthOrchestration.Opened.{IsReady, Opened, create_session-Opened}
use veri_pay.AuthOrchestration.Requests.{
  VerificationCompletionRequest, VerificationResult, VerificationSession,
}
use veri_pay.AuthOrchestration.Service.{
  already_completed, save, session_not_found, tier_value, token_failed,
}
use veri_pay.AuthOrchestration.Sessions.{
  IsConsistent, Reaches, Reaches-IsConsistent, create, empty_service, here, next,
}
use veri_pay.Common.{
  List, String, Text, [], ap, arith, codes, err, false, if◌then◌else◌, insert, leb, lookup, none,
  ok, refl, some, ℕ, ◌++◌, ◌<◌, ◌∙◌, ◌∷◌, ◌≡◌, ◌≢◌, ◌⊎◌,
}
use veri_pay.Enums.Payment.{ProcessingPath, VerificationOutcome}
use veri_pay.Enums.Risk.{RiskTier}
use veri_pay.Security.{
  TokenError, b64decode, b64encode, issue, open_token, pad, rstrip_pad, sign, valid_claims, verify,
}
use veri_pay.Security.Split.{split_dot}
use veri_pay.Security.Token.{verify-eq-ok, verify-issue}
use veri_pay.Tests.Fixtures.{
  request, draws, signed_claims, constant_crypto, env, signed_token, session, service, test_create,
  completion, approval, round_trips, test_verify, test_complete, test_stored, IsValid-service,
}

complete_session-approved_example :
    (s : VerificationSession) × (lookup "verify_s" service.sessions ≡ some s)
    × IsBound env 2000 (completion VerificationOutcome.approved) s
    × (2001 < s.expires_at)
    × (((completion VerificationOutcome.approved).outcome ≢ VerificationOutcome.approved)
        ⊎ FactorsPresented env s (completion VerificationOutcome.approved) s.risk_tier)
complete_session-approved_example =
    complete_session-approved env 2000 2001 "verify_s" (completion VerificationOutcome.approved)
      service approval test_complete refl

complete_session_once_example :
    complete_session env 3000 3001 "verify_s"
      (completion VerificationOutcome.denied)
      (complete_session env 2000 2001 "verify_s"
        (completion VerificationOutcome.approved)
        service).1
    ≡ (
      err already_completed,
      (complete_session env 2000 2001 "verify_s"
          (completion VerificationOutcome.approved)
          service).1,
    )
complete_session_once_example =
    complete_session_once env 2000 2001 "verify_s" (completion VerificationOutcome.approved) service
      approval IsValid-service test_complete 3000 3001 (completion VerificationOutcome.denied)

created_service : Reaches env empty_service (create_session env request draws empty_service).1
created_service = next here (create request draws empty_service)

test_created :
    lookup "verify_s" (create_session env request draws empty_service).1.sessions ≡ some session
test_created = ap (λ a. lookup "verify_s" a.1.sessions) test_create ∙ test_stored

Reaches-IsConsistent_example : ("verify_s" ≡ session.session_id) × IsConsistent session
Reaches-IsConsistent_example =
    Reaches-IsConsistent env "verify_s" session created_service test_created

verify-issue_example :
    (token : Text) × (issue constant_crypto [] signed_claims 30 ≡ ok token)
    × (verify constant_crypto [] token 2000
        ≡ (if leb 30001000 2000 then err TokenError.expired else ok signed_claims))
verify-issue_example =
    verify-issue constant_crypto [] signed_claims 30 2000 (omega arith) (omega arith) round_trips

verify-eq-ok_example :
    (encoded : Text) × (body : List ℕ) × (signed_token
      ≡ codes "vpt1" ++ b'.' ∷ (encoded ++ b'.' ∷ sign constant_crypto [] body))
    × (b64decode constant_crypto encoded ≡ some body)
    × (some signed_claims ≡ some signed_claims)
    × (1000 < 30001000)
verify-eq-ok_example = verify-eq-ok constant_crypto [] signed_token 1000 signed_claims test_verify

ready : IsReady env request draws
unfolding valid_claims tier_value
ready = record {
  tier = RiskTier.high;
  path = ProcessingPath.fast;
  has_tier = refl;
  has_path = refl;
  claims_valid = refl;
  ttl_least = omega arith;
  ttl_most = omega arith;
  round_trips = round_trips;
}

create_session-Opened_example :
    (s : VerificationSession) × (token : Text) × ((create_session env request draws empty_service).0
      ≡ ok (s, token))
    × Opened env request draws empty_service
        (create_session env request draws empty_service).1
        s
        token
create_session-Opened_example = create_session-Opened env request draws empty_service ready

create_session-completable_example :
    (s : VerificationSession) × (token : Text) × (reason : String) × ((create_session env request
        draws empty_service).0
      ≡ ok (s, token))
    × (let approved = record s {
      outcome = VerificationOutcome.approved;
      temporary_lock = false;
      escalation_required = false;
    } in
        complete_session env 2000 2001 s.session_id
          (full_completion request s token "assertion")
          (create_session env request draws empty_service).1
        ≡ (
          ok (result_of approved reason 2000),
          save approved (create_session env request draws empty_service).1,
        ))
create_session-completable_example =
    create_session-completable env request draws empty_service 2000 2001 "assertion" ready
      (omega arith) (omega arith) refl refl

abbrev bare_completion : VerificationCompletionRequest
bare_completion = record (completion VerificationOutcome.escalated) {
  exact_amount_minor = none;
  exact_currency = none;
  biometric_assertion = none;
  confirmation_swipe = false;
}

bare_binding : IsBound env 2000 bare_completion session
unfolding verify open_token split_dot b64encode b64decode sign pad rstrip_pad
bare_binding = record {
  waiting = refl;
  same_digest = refl;
  claims = signed_claims;
  verified = refl;
  same_session = refl;
  same_transaction = refl;
  same_device = refl;
  same_token = refl;
}

complete_session-unvalidated_example :
    (res : VerificationResult) × ((complete_session env 2000 2001 "verify_s" bare_completion
        service).0
      ≡ ok res)
    × (res.outcome ≡ VerificationOutcome.approved)
    × (res.reason_code ≡ "VERIFICATION_APPROVED")
complete_session-unvalidated_example =
    complete_session-unvalidated env 2000 2001 "verify_s" bare_completion service session
      test_stored bare_binding (omega arith) (λ h. cc) (λ h. cc)

test-Opened : Opened env request draws empty_service service session signed_token
unfolding keep_session verify open_token split_dot b64encode b64decode sign pad rstrip_pad lookup
    insert
test-Opened = record {
  stored = refl;
  waiting = refl;
  lifetime = refl;
  bound = refl;
  claims = signed_claims;
  verified = refl;
  claims_expire = refl;
  claims_session = refl;
  claims_transaction = refl;
  claims_device = refl;
  claims_token = refl;
  same_transaction = refl;
  same_device = refl;
  same_currency = refl;
  pushed = refl;
}

complete_session_expired_example :
    complete_session env 30001000 30001001 "verify_s"
      (completion VerificationOutcome.approved)
      service
    ≡ (err (token_failed TokenError.expired), service)
complete_session_expired_example =
    complete_session_expired env request draws empty_service service session signed_token
      test-Opened 30001000 30001001 (completion VerificationOutcome.approved) service test_stored
      refl (omega arith)

test_unknown :
    (complete_session env 2000 2001 "verify_x" (completion VerificationOutcome.approved) service).0
    ≡ err session_not_found
unfolding complete_session keep_session lookup insert
test_unknown = refl
