-- ===== src/DecisionEngine/Models.antt =====
-- The models of services/decision_engine/veripay_decision_engine/service.py.
use veri_pay.Common.{Bool, List, Option, Result, String, none, ok, pos, some, ℕ, ◌>>=◌}
use veri_pay.DecisionEngine.Float.{Float}
use veri_pay.Enums.Payment.{ExplanationMode, PaymentRail, ProcessingPath, VerificationOutcome}
use veri_pay.Enums.Risk.{
  DecisionAction, FrictionType, RiskBand, RiskTier, TimeoutFallback, VerificationWorkflow,
}
use veri_pay.RiskPolicy.{PolicyError, processing_path_for_rail, tier_for_score, tier_from_band}

pub data DecisionReason : Type 0 where
  reversal_request compliance_block mandatory_challenge evidence_unavailable : DecisionReason
  verification_approved verification_denied verification_timeout : DecisionReason
  verification_escalated fast_path_async_explanation : DecisionReason
  secondary_path_in_band_explanation cost_minimized : DecisionReason

-- `invalid_cost` is the validation error of a negative or undefined cost, `no_candidates` the error
-- of `min` of an empty list.
pub data DecisionError : Type 0 where
  assertion_failed invalid_cost no_candidates : DecisionError
  policy_failed : PolicyError → DecisionError

module _ (f : Float) where
  open f use {Real}

  pub record CostModel : Type 0 where
    pub fraud_loss_minor : Real
    pub false_decline_loss_minor : Real
    pub monitor_cost_minor : Real
    pub challenge_cost_minor : Real
    pub review_cost_minor : Real
    pub reversal_cost_minor : Real
    pub monitor_residual_fraud_rate : Real
    pub challenge_residual_fraud_rate : Real
    pub review_residual_fraud_rate : Real
    pub reversal_residual_fraud_rate : Real

  pub record DecisionRequest : Type 0 where
    pub transaction_id : String
    pub risk_score : ℕ
    pub risk_band : Option RiskBand
    pub risk_tier : Option RiskTier
    pub payment_rail : Option PaymentRail
    pub processing_path : Option ProcessingPath
    pub verification_outcome : VerificationOutcome
    pub is_reversal : Bool
    pub compliance_blocked : Bool
    pub mandatory_challenge : Bool
    pub evidence_available : Bool
    pub explanation_available : Bool
    pub cost_model : CostModel

  pub record DecisionCandidate : Type 0 where
    pub action : DecisionAction
    pub expected_cost_minor : Real

  pub record DecisionResponse : Type 0 where
    pub transaction_id : String
    pub action : DecisionAction
    pub risk_score : ℕ
    pub risk_band : RiskBand
    pub risk_tier : RiskTier
    pub reason_code : DecisionReason
    pub expected_cost_minor : Real
    pub candidates : List DecisionCandidate
    pub friction : FrictionType
    pub workflow : VerificationWorkflow
    pub timeout_seconds : ℕ
    pub timeout_fallback : TimeoutFallback
    pub processing_path : ProcessingPath
    pub explanation_mode : ExplanationMode
    pub explanation_job_id : Option String
    pub escalation_required : Bool
    pub evaluated_at : ℕ

  -- `derive_operational_fields`, for a request without a tier
  unfoldable pub missing_tier : DecisionRequest → Result PolicyError RiskTier
  missing_tier r = elim r.risk_band [
    | some band ↦ ok (tier_from_band band)
    | none ↦ tier_for_score (pos r.risk_score)
  ]

  -- `derive_operational_fields`
  unfoldable pub derive_operational_fields : DecisionRequest → Result PolicyError DecisionRequest
  unfolding missing_tier
  derive_operational_fields r = do
    tier ← elim r.risk_tier [ some t ↦ ok t | none ↦ missing_tier r ]
    ok (record r {
      risk_tier = some tier;
      processing_path = elim r.processing_path [
        | some p ↦ some p
        | none ↦ elim r.payment_rail [
          | some rail ↦ some (processing_path_for_rail rail)
          | none ↦ none
        ]
      ];
    })
