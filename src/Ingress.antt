-- ===== src/Ingress.antt =====
-- services/ingress/veripay_ingress/service.py: the baseline risk of a transaction and its
-- authorization. The random identifiers are arguments.
pub mod Authorization
use veri_pay.Common.{
  Bool, Dict, List, Option, Result, String, [], contains, false, get_or, if◌then◌else◌, insert, leb,
  min, none, ok, pos, some, text_append, ℕ, ◌+◌, ◌==◌, ◌>>=◌, ◌>>◌, ◌∷◌,
}
use veri_pay.Enums.Payment.{
  Channel, ExplanationMode, Mti, PaymentRail, ProcessingPath, channel_eq, processing_path_eq,
}
use veri_pay.Enums.Risk.{
  DecisionAction, FrictionType, RiskBand, RiskTier, VerificationWorkflow, risk_band_eq,
  risk_tier_eq,
}
use veri_pay.RiskPolicy.{
  PolicyError, band_for_tier, policy_for_tier, processing_path_for_rail, tier_for_score,
}

pub record Transaction : Type 0 where
  pub transaction_id : String
  pub user_id : String
  pub amount_minor : ℕ
  pub currency : String
  pub merchant_id : Option String
  pub mti : Mti
  pub channel : Channel
  pub payment_rail : Option PaymentRail
  pub processing_path : Option ProcessingPath

-- The only component of a baseline score: its weight is 1.0 and it is available.
pub record ComponentScore : Type 0 where
  pub component : String
  pub score : ℕ
  pub reason_code : Option String

pub record RiskScore : Type 0 where
  pub transaction_id : String
  pub unified_score : ℕ
  pub band : RiskBand
  pub tier : RiskTier
  pub components : List ComponentScore

pub record AuthorizationResponse : Type 0 where
  pub transaction_id : String
  pub decision : DecisionAction
  pub risk_score : ℕ
  pub reason_code : String
  pub challenge_id : Option String
  pub risk_tier : RiskTier
  pub friction : FrictionType
  pub workflow : VerificationWorkflow
  pub verification_timeout_seconds : ℕ
  pub processing_path : ProcessingPath
  pub explanation_mode : ExplanationMode
  pub explanation_job_id : Option String
  pub escalation_required : Bool

-- `InMemoryTransactionRepository.save`
abbrev pub save_transaction : Transaction → Dict Transaction → Dict Transaction
save_transaction t d = insert t.transaction_id t d

-- The score and its reason, before the cap at 100.
unfoldable pub baseline : Transaction → ℕ × Option String
baseline t =
    let high_value = leb 100000 t.amount_minor in
    let not_present = t.channel == Channel.card_not_present in
    (
      (if high_value then 35 else 0) + (if not_present then 10 else 0),
      if high_value
          then some "HIGH_VALUE"
          else if not_present
          then some "CARD_NOT_PRESENT"
          else none,
    )

unfoldable pub calculate_risk : Transaction → Result PolicyError RiskScore
unfolding baseline
calculate_risk t = do
  let score = min (baseline t).0 100
  tier ← tier_for_score (pos score)
  ok (record {
    transaction_id = t.transaction_id;
    unified_score = score;
    band = band_for_tier tier;
    tier = tier;
    components =
        record { component = "ingress_baseline"; score = score; reason_code = (baseline t).1 } ∷ [];
  })

-- A decision, its reason and the identifier of its challenge.
pub record Verdict : Type 0 where
  pub decision : DecisionAction
  pub reason_code : String
  pub challenge_id : Option String

abbrev verdict : DecisionAction → String → Option String → Verdict
verdict d reason challenge = record { decision = d; reason_code = reason; challenge_id = challenge }

unfoldable pub legacy_verdict : RiskBand → String → Verdict
legacy_verdict band hex =
    if band == RiskBand.block
    then verdict DecisionAction.decline "RISK_THRESHOLD" none
    else if band == RiskBand.verify
    then verdict DecisionAction.challenge "RISK_THRESHOLD" (some (text_append "challenge_" hex))
    else verdict DecisionAction.allow "BASELINE_APPROVED" none

-- `_legacy_authorize`
unfoldable pub legacy_authorize :
    Transaction → RiskScore → String → Result PolicyError AuthorizationResponse
unfolding legacy_verdict
legacy_authorize t risk hex = do
  let v = legacy_verdict risk.band hex
  policy ← policy_for_tier risk.tier
  ok (record {
    transaction_id = t.transaction_id;
    decision = v.decision;
    risk_score = risk.unified_score;
    reason_code = v.reason_code;
    challenge_id = v.challenge_id;
    risk_tier = risk.tier;
    friction = policy.friction;
    workflow = policy.workflow;
    verification_timeout_seconds = policy.timeout_seconds;
    processing_path = ProcessingPath.fast;
    explanation_mode = ExplanationMode.async;
    explanation_job_id = none;
    escalation_required = false;
  })

unfoldable pub tier_verdict : RiskTier → String → Verdict
tier_verdict tier hex =
    if tier == RiskTier.no_risk
    then verdict DecisionAction.allow "BASELINE_APPROVED" none
    else if contains tier (RiskTier.low ∷ RiskTier.moderate ∷ [])
    then verdict DecisionAction.challenge "RISK_TIER_VERIFICATION_REQUIRED"
        (some (text_append "challenge_" hex))
    else verdict DecisionAction.review "HIGH_RISK_ANALYST_REVIEW_REQUIRED"
        (some (text_append "challenge_" hex))

-- `authorize` of a transaction that names its rail
unfoldable pub rail_authorize :
    Transaction
    → RiskScore
    → PaymentRail
    → String
    → String
    → Result PolicyError AuthorizationResponse
unfolding tier_verdict
rail_authorize t risk rail hex job_hex = do
  let path = get_or t.processing_path (processing_path_for_rail rail)
  let v = tier_verdict risk.tier hex
  policy ← policy_for_tier risk.tier
  ok (record {
    transaction_id = t.transaction_id;
    decision = v.decision;
    risk_score = risk.unified_score;
    reason_code = v.reason_code;
    challenge_id = v.challenge_id;
    risk_tier = risk.tier;
    friction = policy.friction;
    workflow = policy.workflow;
    verification_timeout_seconds = policy.timeout_seconds;
    processing_path = path;
    explanation_mode =
        if path == ProcessingPath.fast then ExplanationMode.async else ExplanationMode.in_band;
    explanation_job_id =
        if path == ProcessingPath.fast then some (text_append "explain_" job_hex) else none;
    escalation_required = risk.tier == RiskTier.high;
  })

unfoldable pub authorize : Transaction → String → String → Result PolicyError AuthorizationResponse
unfolding legacy_authorize rail_authorize
authorize t hex job_hex = do
  risk ← calculate_risk t
  elim t.payment_rail [
    | none ↦ legacy_authorize t risk hex
    | some rail ↦ rail_authorize t risk rail hex job_hex
  ]
