-- ===== src/AuthOrchestration/Service.antt =====
-- The state and the providers of `VerificationService` in
-- services/auth_orchestration/veripay_auth_orchestration/service.py.
use veri_pay.AuthOrchestration.Requests.{VerificationSession}
use veri_pay.Common.{Bool, Dict, List, String, Text, [], insert, ℕ, ◌++◌, ◌∷◌}
use veri_pay.Enums.Risk.{RiskTier}
use veri_pay.RiskPolicy.{PolicyError}
use veri_pay.Security.{Crypto, TokenError}

-- Boundaries that this repository does not implement: the signer's standard library calls and its
-- secret, `sha256(...).hexdigest()` of a token, `str.upper`, and the platform's check of an assertion
-- for a device and a transaction.
pub record Providers : Type 0 where
  pub crypto : Crypto
  pub secret : List ℕ
  pub digest : Text → String
  pub upper : String → String
  pub verify_biometric : String → String → String → Bool

-- The service's state: the in-memory repository and the sessions that the recording push provider
-- has dispatched.
pub record Service : Type 0 where
  pub sessions : Dict VerificationSession
  pub dispatched : List String

-- What one call of `create_session` draws: the clock, two `uuid4().hex`, and a nonce.
pub record Draws : Type 0 where
  pub now : ℕ
  pub session_hex : String
  pub token_hex : String
  pub nonce : String

pub data VerificationError : Type 0 where
  assertion_failed invalid_claims session_not_found already_completed : VerificationError
  binding_failed claims_mismatch token_unrecoverable : VerificationError
  policy_failed : PolicyError → VerificationError
  token_failed : TokenError → VerificationError

-- The value of a `RiskTier`.
unfoldable pub tier_value : RiskTier → String
tier_value RiskTier.no_risk = "NO_RISK"
tier_value RiskTier.low = "LOW"
tier_value RiskTier.moderate = "MODERATE"
tier_value RiskTier.high = "HIGH"

abbrev pub save : VerificationSession → Service → Service
save s svc = record svc { sessions = insert s.session_id s svc.sessions }

abbrev pub dispatch : VerificationSession → Service → Service
dispatch s svc = record svc { dispatched = svc.dispatched ++ s.session_id ∷ [] }
