-- ===== src/Tests/Stores.antt =====
-- The theorems of the token vault, the devices, the feedback and the audit log.
use veri_pay.AuditStore.{AuditEvent, AuditRepository, empty_audit, record_event}
use veri_pay.AuditStore.Events.{IsDistinct, Runs-events, done, recorded, then_step}
use veri_pay.Common.{
  Dict, List, [], arith, false, lookup, none, ok, refl, some, true, ◌++◌, ◌∷◌, ◌≡◌,
}
use veri_pay.DeviceIntegrity.{
  AttestationRequest, AttestationStatus, ChallengeRecord, Challenges, DeviceChallenge,
  attestation_result, deterministic_verify, judge, rejection, verify_attestation, verify_found,
}
use veri_pay.DeviceIntegrity.Attestation.{
  Answers, verify_attestation-verified, verify_attestation_once,
}
use veri_pay.Enums.Token.{TokenStatus, TokenType}
use veri_pay.Enums.Trust.{DevicePlatform}
use veri_pay.FeedbackLoop.{FeedbackSubmission, ReviewLabel}
use veri_pay.TokenVault.{DcvvValidationRequest, TokenCreateRequest, TokenRecord}
use veri_pay.TokenVault.Handlers.{IsValid, Request, serve, serve-IsValid}
use veri_pay.TokenVault.Usage.{granted, granted-eq-remaining}

abbrev vault_token : TokenRecord
vault_token = record {
  token_id = "tok-1";
  merchant_id = "m";
  user_id = "u";
  token_type = TokenType.subscription;
  status = TokenStatus.active;
  expires_at = 5000;
  max_uses = some 2;
  uses = 1;
}

granted-eq-remaining_example : granted vault_token (10 ∷ 20 ∷ 30 ∷ []) ≡ 1
granted-eq-remaining_example =
    granted-eq-remaining vault_token (10 ∷ 20 ∷ 30 ∷ []) (omega arith) (λ h. cc)
      (omega arith, (omega arith, (omega arith, tt)))

abbrev vault : Dict TokenRecord
vault = ("tok-1", vault_token) ∷ []

abbrev creation : TokenCreateRequest
creation = record {
  token_id = "tok-2";
  merchant_id = "m";
  user_id = "u";
  token_type = TokenType.single_use;
  expires_at = 5000;
  max_uses = some 1;
}

vault-IsValid : IsValid vault
vault-IsValid = ((refl, omega arith), tt)

serve-IsValid_example :
    IsValid (serve (Request.create creation ∷ Request.use_once "tok-1" 10 ∷ []) vault)
serve-IsValid_example =
    serve-IsValid (Request.create creation ∷ Request.use_once "tok-1" 10 ∷ []) vault
      (omega arith, (tt, tt)) vault-IsValid

abbrev code_check : DcvvValidationRequest
code_check = record { token_id = "tok-1"; provided_dcvv = "123"; expected_dcvv = "123" }

abbrev phone_challenge : DeviceChallenge
phone_challenge = record {
  challenge_id = "challenge_1";
  device_id = "device-1";
  platform = DevicePlatform.ios;
  nonce = "nonce";
  expires_at = 90000000;
}

abbrev open_challenge : ChallengeRecord
open_challenge = record { challenge = phone_challenge; consumed = false }

abbrev challenges : Challenges
challenges = ("challenge_1", open_challenge) ∷ []

abbrev attestation : AttestationRequest
attestation = record {
  challenge_id = "challenge_1";
  nonce = "nonce";
  device_id = "device-1";
  platform = DevicePlatform.ios;
  attestation_token = "valid-attestation";
}

test_challenge : lookup "challenge_1" challenges ≡ some open_challenge
unfolding lookup
test_challenge = refl

test_attested :
    (verify_attestation deterministic_verify attestation 1000 challenges).0.verdict.status
    ≡ AttestationStatus.verified
unfolding verify_attestation verify_found judge deterministic_verify lookup
test_attested = refl

verify_attestation-verified_example :
    (found : ChallengeRecord) × (lookup "challenge_1" challenges ≡ some found)
    × (found.consumed ≡ false)
    × Answers attestation 1000 found.challenge
    × ((verify_attestation deterministic_verify attestation 1000 challenges).0.verdict
        ≡ deterministic_verify DevicePlatform.ios "valid-attestation")
verify_attestation-verified_example =
    verify_attestation-verified deterministic_verify attestation 1000 challenges test_attested

verify_attestation_once_example :
    verify_attestation deterministic_verify attestation 2000
      (verify_attestation deterministic_verify attestation 1000 challenges).1
    ≡ (
      attestation_result attestation (rejection "CHALLENGE_REPLAYED"),
      (verify_attestation deterministic_verify attestation 1000 challenges).1,
    )
verify_attestation_once_example =
    verify_attestation_once deterministic_verify attestation attestation 1000 2000 challenges
      open_challenge test_challenge refl

abbrev submission : ReviewLabel → FeedbackSubmission
submission l = record {
  idempotency_key = "key-1";
  transaction_id = "txn-1";
  analyst_id = "analyst";
  label = l;
  reason_codes = [];
  decision_action = "ALLOW";
  created_at = none;
}

abbrev audit_event : AuditEvent
audit_event = record {
  event_id = "evt_1";
  transaction_id = "txn-1";
  event_type = "DECISION";
  actor = "decision-engine";
  occurred_at = 1000;
  payload = [];
  retention_until = none;
  immutable = true;
}

abbrev audited : AuditRepository
audited = record empty_audit { events = audit_event ∷ [] }

test_recorded : record_event audit_event empty_audit ≡ ok audited
unfolding record_event
test_recorded = refl

Runs-events_example :
    (more : List AuditEvent) × ((audit_event ∷ []) ≡ [] ++ more) × IsDistinct (audit_event ∷ [])
Runs-events_example =
    Runs-events empty_audit audited
      (then_step empty_audit empty_audit audited (done empty_audit)
        (recorded audit_event empty_audit audited test_recorded))
      tt
