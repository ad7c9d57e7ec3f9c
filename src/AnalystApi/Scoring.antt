-- ===== src/AnalystApi/Scoring.antt =====
-- services/analyst_api/veripay_analyst_api/service.py: what a score reads and returns (models.py,
-- config.py, clients.py), and how it is computed. Lists that are only shown are left out.
use veri_pay.AnalystApi.{Decision, GeoPoint, RiskLevel, Tools, decision_eq}
use veri_pay.AnalystApi.Profiles.{StoredTransaction}
use veri_pay.Common.{
  Bool, Dict, List, Option, String, [], false, if◌then◌else◌, leb, list_eq, min, nat_eq, negsuc,
  none, option_eq, pos, some, string_eq, ℕ, ℤ, ◌&&◌, ◌==◌,
}
use veri_pay.DecisionEngine.Float.{Float}
use veri_pay.Enums.Dispute.{dispute_reason_eq, dispute_status_eq}
use veri_pay.Enums.Payment.{
  channel_eq, payment_rail_eq, processing_path_eq, verification_outcome_eq,
}
use veri_pay.Enums.Risk.{
  DecisionAction, RiskBand, RiskTier, decision_action_eq, risk_band_eq, risk_tier_eq,
}
use veri_pay.Enums.Token.{token_status_eq}
use veri_pay.Enums.Trust.{
  device_platform_eq, device_trust_state_eq, gpv_outcome_eq, sca_exemption_eq,
}

pub record TransactionInput (f : Float) : Type 0 where
  pub transaction_id : String
  pub cc_num : ℕ
  pub amount : f.Real
  pub merchant : String
  pub category : String
  pub timestamp : ℕ
  pub location : Option (GeoPoint f)
  pub merchant_location : Option (GeoPoint f)
  pub model_features : Option (Dict f.Real)

-- `Settings`, as far as a score reads them.
pub record Settings (f : Float) : Type 0 where
  pub use_rich_features : Bool
  pub trust_boost_window : ℕ
  pub trust_boost_factor : f.Real
  pub heightened_alert_add : f.Real
  pub gradual_drift_factor : f.Real
  pub sudden_drift_factor : f.Real
  pub network_fusion_weight : f.Real
  pub fraud_quadrant_threshold : f.Real
  pub anomaly_quadrant_threshold : f.Real

-- The answers of the services, with what may be missing in them.
pub record ModelAnswer (f : Float) : Type 0 where
  pub value : Option f.Real
  pub model_available : Option Bool

pub record GraphAnswer (f : Float) : Type 0 where
  pub network_risk_score : Option f.Real
  pub available : Option Bool
  pub findings : List String

pub record Component (f : Float) : Type 0 where
  pub component : String
  pub score : ℤ
  pub weight : f.Real
  pub available : Bool

pub record Fusion : Type 0 where
  pub unified_score : ℤ
  pub band : RiskBand
  pub tier : RiskTier

pub record EngineAnswer : Type 0 where
  pub action : DecisionAction
  pub risk_tier : RiskTier
  pub risk_band : RiskBand

-- `PipelineClient`, whose answers come over HTTP, and the feature builders features.py and
-- features16.py; none where the call raises, or the answer holds no such number or member.
pub record Client (f : Float) : Type 0 where
  pub build_features :
      TransactionInput f → List (StoredTransaction f) → List (StoredTransaction f) → Dict f.Real
  pub rich_features :
      TransactionInput f → List (StoredTransaction f) → List (StoredTransaction f) → Dict f.Real
  pub supervised_score : String → Dict f.Real → Option (ModelAnswer f)
  pub anomaly_score : String → Dict f.Real → Option (ModelAnswer f)
  pub graph_score : TransactionInput f → Bool → Option (GraphAnswer f)
  pub fuse_risk : String → List (Component f) → Option Fusion
  pub decide : String → Fusion → Option EngineAnswer

pub record ScoreResponse (f : Float) : Type 0 where
  pub transaction_id : String
  pub cc_num : ℕ
  pub decision : Decision
  pub risk_level : RiskLevel
  pub verification_action : String
  pub action : DecisionAction
  pub risk_band : RiskBand
  pub risk_tier : RiskTier
  pub fused_risk_score : ℤ
  pub fraud_probability : f.Real
  pub anomaly_score : f.Real
  pub raw_fraud_probability : f.Real
  pub raw_anomaly_score : f.Real
  pub model_available : Bool
  pub feature_mode : String
  pub network_risk_score : f.Real
  pub network_available : Bool
  pub network_findings : List String

pub data ScoreError : Type 0 where
  call_failed invalid_response not_scored : ScoreError

module _ (f : Float) (t : Tools f) where
  -- `max(0.0, min(1.0, value))`
  unfoldable pub clamp01 : f.Real → f.Real
  clamp01 value =
      let low = if f.lt value (f.of_nat 1) then value else f.of_nat 1 in
      if f.lt (f.of_nat 0) low then low else f.of_nat 0

  -- `_min(round(x * 100), 100)`
  unfoldable pub percent : f.Real → ℤ
  percent x = elim (t.round (f.mul x (f.of_nat 100))) [
    | pos n ↦ pos (min n 100)
    | negsuc n ↦ negsuc n
  ]

  abbrev pub in_unit : f.Real → Bool
  in_unit x = f.le (f.of_nat 0) x && f.le x (f.of_nat 1)

  abbrev pub in_percent : ℤ → Bool
  in_percent (pos n) = leb n 100
  in_percent (negsuc n) = false

  -- The constraints of the fields of `ScoreResponse`.
  unfoldable pub valid_response : ScoreResponse f → Bool
  valid_response r =
      in_percent r.fused_risk_score
      && in_unit r.fraud_probability
      && in_unit r.anomaly_score
      && in_unit r.raw_fraud_probability
      && in_unit r.raw_anomaly_score
      && in_unit r.network_risk_score

  -- The graph's answer, or what stands for it where the call raises.
  abbrev pub graph_or_none : Option (GraphAnswer f) → GraphAnswer f
  graph_or_none none = record { network_risk_score = none; available = none; findings = [] }
  graph_or_none (some g) = g

  -- The refinement of the four quadrants: a block with a high fraud probability and a low anomaly
  -- score goes to an analyst instead.
  unfoldable pub refine : Settings f → Decision → f.Real → f.Real → Decision
  refine settings decision adjusted_fraud adjusted_anomaly =
      if decision == Decision.block
        && f.le settings.fraud_quadrant_threshold adjusted_fraud
        && f.lt adjusted_anomaly settings.anomaly_quadrant_threshold
      then Decision.review_stealth
      else decision
