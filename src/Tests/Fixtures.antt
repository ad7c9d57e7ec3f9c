-- ===== src/Tests/Fixtures.antt =====
-- A session of tier HIGH of the auth orchestration, with a constant signer, for the tests.
use veri_pay.AuthOrchestration.Binding.{IsBound}
use veri_pay.AuthOrchestration.Completion.{
  biometric_error, check_binding, complete_found, complete_session, decide_session, high_error,
  result_of, settle, validate_workflow,
}
use veri_pay.AuthOrchestration.Creation.{create_session, keep_session, prepare_session, session_of}
use veri_pay.AuthOrchestration.Requests.{
  VerificationCompletionRequest, VerificationResult, VerificationSession,
  VerificationSessionRequest,
}
use veri_pay.AuthOrchestration.Service.{Draws, Providers, Service, tier_value}
use veri_pay.AuthOrchestration.Sessions.{
  IsValid, empty_service, keep_session-IsValid, prepare_session-IsConsistent,
}
use veri_pay.Common.{Text, [], arith, codes, false, insert, lookup, none, ok, refl, some, true, ◌≡◌}
use veri_pay.Enums.Payment.{PaymentRail, ProcessingPath, VerificationOutcome}
use veri_pay.Enums.Risk.{
  DecisionAction, FrictionType, RiskTier, TimeoutFallback, VerificationWorkflow,
}
use veri_pay.RiskPolicy.{TierPolicy, policy_for_tier}
use veri_pay.Security.{
  Crypto, VerificationTokenClaims, b64decode, b64encode, issue, open_token, pad, rstrip_pad, sign,
  valid_claims, verify,
}
use veri_pay.Security.Split.{split_dot}
use veri_pay.Security.Token.{RoundTrips}

abbrev pub request : VerificationSessionRequest
request = record {
  transaction_id = "txn-1";
  device_id = "device-1";
  amount_minor = 12500;
  currency = "USD";
  risk_score = 60;
  risk_tier = some RiskTier.high;
  payment_rail = PaymentRail.card;
  processing_path = some ProcessingPath.fast;
  ttl_seconds = 30;
}

abbrev pub draws : Draws
draws = record { now = 1000; session_hex = "s"; token_hex = "t"; nonce = "n" }

abbrev pub signed_claims : VerificationTokenClaims
signed_claims = record {
  session_id = "verify_s";
  transaction_id = "txn-1";
  device_id = "device-1";
  nonce = "n";
  amount_minor = 12500;
  currency = "USD";
  risk_tier = "HIGH";
  issued_at = 1000;
  expires_at = 30001000;
  token_id = "token_t";
}

-- A signer whose every text is "AAAA", and which reads every text as the claims above.
abbrev pub constant_crypto : Crypto
constant_crypto = record {
  hmac_sha256 = λ key body. [];
  urlsafe_b64encode = λ bytes. codes "AAAA";
  urlsafe_b64decode = λ text. some [];
  dumps = λ claims. [];
  loads = λ bytes. some signed_claims;
}

abbrev pub env : Providers
env = record {
  crypto = constant_crypto;
  secret = [];
  digest = λ token. "digest";
  upper = λ s. s;
  verify_biometric = λ assertion device transaction. true;
}

abbrev pub signed_token : Text
signed_token = codes "vpt1.AAAA.AAAA"

abbrev pub high_policy : TierPolicy
high_policy = record {
  tier = RiskTier.high;
  minimum_score = 51;
  maximum_score = 100;
  friction = FrictionType.multi_factor;
  workflow = VerificationWorkflow.exact_amount_biometric_swipe;
  timeout_seconds = 30;
  timeout_fallback = TimeoutFallback.live_analyst_escalation;
  fallback_action = DecisionAction.review;
  temporary_lock = false;
  analyst_escalation = true;
}

abbrev pub session : VerificationSession
session =
    session_of env request RiskTier.high ProcessingPath.fast high_policy draws 30001000 signed_token

abbrev pub service : Service
service = keep_session session empty_service

pub test_create :
    create_session env request draws empty_service ≡ (ok (session, signed_token), service)
unfolding create_session keep_session prepare_session valid_claims issue verify open_token
    policy_for_tier split_dot b64encode b64decode sign pad rstrip_pad tier_value
test_create = refl

abbrev pub completion : VerificationOutcome → VerificationCompletionRequest
completion outcome = record {
  token = signed_token;
  outcome = outcome;
  exact_amount_minor = some 12500;
  exact_currency = some "USD";
  biometric_assertion = some "assertion";
  confirmation_swipe = true;
  denial_reason = none;
}

abbrev pub approved_session : VerificationSession
approved_session = record session { outcome = VerificationOutcome.approved }

abbrev pub approval : VerificationResult
approval = result_of approved_session "VERIFICATION_APPROVED" 2000

pub round_trips : RoundTrips constant_crypto signed_claims
unfolding pad
round_trips = record {
  alphabet = codes "AAAA";
  padding = 0;
  form = refl;
  no_dot = (refl, (refl, (refl, (refl, tt))));
  no_pad = (refl, (refl, (refl, (refl, tt))));
  padding_small = omega arith;
  blocks = refl;
  decodes = refl;
  parses = refl;
}

pub test_verify : verify constant_crypto [] signed_token 1000 ≡ ok signed_claims
unfolding verify open_token split_dot b64encode b64decode sign pad rstrip_pad
test_verify = refl

pub test_binding : IsBound env 2000 (completion VerificationOutcome.approved) session
unfolding verify open_token split_dot b64encode b64decode sign pad rstrip_pad
test_binding = record {
  waiting = refl;
  same_digest = refl;
  claims = signed_claims;
  verified = refl;
  same_session = refl;
  same_transaction = refl;
  same_device = refl;
  same_token = refl;
}

pub test_complete :
    (complete_session env 2000 2001 "verify_s" (completion VerificationOutcome.approved) service).0
    ≡ ok approval
unfolding complete_session complete_found check_binding settle validate_workflow high_error
    biometric_error decide_session keep_session lookup insert verify open_token split_dot b64encode
    b64decode sign pad rstrip_pad
test_complete = refl

pub test_stored : lookup "verify_s" service.sessions ≡ some session
unfolding lookup insert keep_session
test_stored = refl

pub test_prepare : prepare_session env request draws ≡ ok (session, signed_token)
unfolding prepare_session valid_claims issue verify open_token policy_for_tier split_dot b64encode
    b64decode sign pad rstrip_pad tier_value
test_prepare = refl

pub IsValid-service : IsValid service
IsValid-service =
    keep_session-IsValid session empty_service
      (prepare_session-IsConsistent env request draws session signed_token test_prepare) tt
