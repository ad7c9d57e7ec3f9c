-- ===== src/AuthOrchestration/Requests.antt =====
-- The models of service.py of the auth orchestration, with their derived fields.
use veri_pay.Common.{
  Bool, Option, Result, String, Text, if◌then◌else◌, is_some, ok, pos, some, ℕ, ◌>>=◌,
}
use veri_pay.Enums.Payment.{PaymentRail, ProcessingPath, VerificationOutcome}
use veri_pay.Enums.Risk.{FrictionType, RiskTier, VerificationWorkflow}
use veri_pay.RiskPolicy.{PolicyError, processing_path_for_rail, tier_for_score}

pub record VerificationSessionRequest : Type 0 where
  pub transaction_id : String
  pub device_id : String
  pub amount_minor : ℕ
  pub currency : String
  pub risk_score : ℕ
  pub risk_tier : Option RiskTier
  pub payment_rail : PaymentRail
  pub processing_path : Option ProcessingPath
  pub ttl_seconds : ℕ

-- The tier of the score, for a request that gives none.
unfoldable pub derived_tier : ℕ → Result PolicyError (Option RiskTier)
derived_tier score = do tier ← tier_for_score (pos score); ok (some tier)

-- The validator of the request; its score is a field of 0 to 100.
unfoldable pub derive_fields :
    VerificationSessionRequest → Result PolicyError VerificationSessionRequest
unfolding derived_tier
derive_fields r = do
  tier ← (if is_some r.risk_tier then ok r.risk_tier else derived_tier r.risk_score)
  ok (record r {
    risk_tier = tier;
    processing_path =
        if is_some r.processing_path
        then r.processing_path
        else some (processing_path_for_rail r.payment_rail);
  })

pub record VerificationCompletionRequest : Type 0 where
  pub token : Text
  pub outcome : VerificationOutcome
  pub exact_amount_minor : Option ℕ
  pub exact_currency : Option String
  pub biometric_assertion : Option String
  pub confirmation_swipe : Bool
  pub denial_reason : Option String

pub record VerificationSession : Type 0 where
  pub session_id : String
  pub transaction_id : String
  pub device_id : String
  pub amount_minor : ℕ
  pub currency : String
  pub risk_tier : RiskTier
  pub processing_path : ProcessingPath
  pub friction : FrictionType
  pub workflow : VerificationWorkflow
  pub timeout_seconds : ℕ
  pub expires_at : ℕ
  pub token_id : String
  pub token_digest : String
  pub outcome : VerificationOutcome
  pub temporary_lock : Bool
  pub escalation_required : Bool
  pub created_at : ℕ

pub record VerificationResult : Type 0 where
  pub session_id : String
  pub transaction_id : String
  pub outcome : VerificationOutcome
  pub risk_tier : RiskTier
  pub temporary_lock : Bool
  pub escalation_required : Bool
  pub reason_code : String
  pub completed_at : ℕ
