-- ===== src/DeviceIntegrity.antt =====
-- services/device_integrity/veripay_device_integrity/service.py: the challenges of a device and the
-- check of their attestation. The clock reading of a call, the random identifier and the nonce are
-- arguments, and the attestation provider is a parameter of `verify_attestation`.
pub mod Attestation
pub mod Gpv
use veri_pay.Common.{
  Bool, Dict, String, false, if◌then◌else◌, insert, leb, lookup, none, not, seconds, some,
  string_eq, text_append, true, ℕ, ◌+◌, ◌==◌, ◌||◌,
}
use veri_pay.Enums.Trust.{DevicePlatform, DeviceTrustState, device_platform_eq}

pub data AttestationStatus : Type 0 where
  verified rejected unavailable : AttestationStatus

pub record DeviceChallengeRequest : Type 0 where
  pub device_id : String
  pub platform : DevicePlatform
  pub ttl_seconds : ℕ

pub record DeviceChallenge : Type 0 where
  pub challenge_id : String
  pub device_id : String
  pub platform : DevicePlatform
  pub nonce : String
  pub expires_at : ℕ

pub record AttestationRequest : Type 0 where
  pub challenge_id : String
  pub nonce : String
  pub device_id : String
  pub platform : DevicePlatform
  pub attestation_token : String

-- What a provider returns: `tuple[AttestationStatus, DeviceTrustState, str]`.
pub record Verdict : Type 0 where
  pub status : AttestationStatus
  pub trust_state : DeviceTrustState
  pub reason_code : String

pub record AttestationResult : Type 0 where
  pub challenge_id : String
  pub device_id : String
  pub platform : DevicePlatform
  pub verdict : Verdict

abbrev pub AttestationProvider : Type 0
AttestationProvider = DevicePlatform → String → Verdict

-- `DeterministicAttestationProvider.verify`
unfoldable pub deterministic_verify : AttestationProvider
deterministic_verify platform attestation =
    if attestation == "valid-attestation"
    then record {
      status = AttestationStatus.verified;
      trust_state = DeviceTrustState.trusted;
      reason_code = "ATTESTATION_VERIFIED";
    }
    else if attestation == "untrusted-attestation"
    then record {
      status = AttestationStatus.verified;
      trust_state = DeviceTrustState.untrusted;
      reason_code = "ATTESTATION_UNTRUSTED";
    }
    else record {
      status = AttestationStatus.unavailable;
      trust_state = DeviceTrustState.unknown;
      reason_code = "ATTESTATION_PROVIDER_UNAVAILABLE";
    }

pub record ChallengeRecord : Type 0 where
  pub challenge : DeviceChallenge
  pub consumed : Bool

-- `InMemoryDeviceRepository`, and its `save_challenge`
abbrev pub Challenges : Type 0
Challenges = Dict ChallengeRecord

abbrev pub save_challenge : ChallengeRecord → Challenges → Challenges
save_challenge r d = insert r.challenge.challenge_id r d

unfoldable pub issue_challenge :
    DeviceChallengeRequest → ℕ → String → String → Challenges → DeviceChallenge × Challenges
issue_challenge r now hex nonce d =
    let challenge : DeviceChallenge = record {
      challenge_id = text_append "challenge_" hex;
      device_id = r.device_id;
      platform = r.platform;
      nonce = nonce;
      expires_at = now + seconds r.ttl_seconds;
    } in
    (challenge, save_challenge (record { challenge = challenge; consumed = false }) d)

abbrev pub rejection : String → Verdict
rejection reason = record {
  status = AttestationStatus.rejected;
  trust_state = DeviceTrustState.unknown;
  reason_code = reason;
}

-- The verdict on a challenge that is not consumed, in the order of the checks.
unfoldable pub judge : AttestationProvider → AttestationRequest → ℕ → DeviceChallenge → Verdict
judge provider r now c =
    if leb c.expires_at now
    then rejection "CHALLENGE_EXPIRED"
    else if not (c.device_id == r.device_id) || not (c.platform == r.platform)
    then rejection "CHALLENGE_BINDING_MISMATCH"
    else if not (c.nonce == r.nonce)
    then rejection "CHALLENGE_NONCE_MISMATCH"
    else provider r.platform r.attestation_token

abbrev pub attestation_result : AttestationRequest → Verdict → AttestationResult
attestation_result r v = record {
  challenge_id = r.challenge_id;
  device_id = r.device_id;
  platform = r.platform;
  verdict = v;
}

-- The record of the dictionary is the one that is marked, so the dictionary holds the mark.
unfoldable pub verify_found :
    AttestationProvider
    → AttestationRequest
    → ℕ
    → ChallengeRecord
    → Challenges
    → Verdict × Challenges
verify_found provider r now found d =
    if found.consumed then (rejection "CHALLENGE_REPLAYED", d) else (
      judge provider r now found.challenge,
      insert r.challenge_id (record found { consumed = true }) d,
    )

unfoldable pub verify_attestation :
    AttestationProvider → AttestationRequest → ℕ → Challenges → AttestationResult × Challenges
verify_attestation provider r now d = elim (lookup r.challenge_id d) [
  | none ↦ (attestation_result r (rejection "CHALLENGE_NOT_FOUND"), d)
  | some found ↦ let (v, e) = verify_found provider r now found d in (attestation_result r v, e)
]
