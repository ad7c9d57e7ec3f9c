-- ===== src/Tests/Decisions.antt =====
-- The theorems of the risk policy, the decision engine, the ingress and the compliance engine.
use veri_pay.Common.{
  IsOk, [], arith, false, if◌then◌else◌, is_some, leb, none, ok, refl, some, true, ℕ, ◌+◌, ◌<◌,
  ◌==◌, ◌↔◌, ◌∷◌, ◌≡◌, ◌≤◌, ◌⊎◌,
}
use veri_pay.ComplianceEngine.{ComplianceOutcome, ComplianceRequest, evaluate_compliance}
use veri_pay.ComplianceEngine.Outcomes.{IsScaClear, evaluate_compliance-pass}
use veri_pay.DecisionEngine.Control.{hard_control, outcome_control}
use veri_pay.DecisionEngine.Decide.{
  answer_from, candidate, candidates_of, cheapest, cost_reason, cost_response, decide,
  decide_setting, expected_cost, select,
}
use veri_pay.DecisionEngine.Float.{AmountLaws}
use veri_pay.DecisionEngine.Models.{
  CostModel, DecisionCandidate, DecisionRequest, DecisionResponse, cost_minimized,
}
use veri_pay.DecisionEngine.Safety.{IsCleared, MayAllow, decide-allow}
use veri_pay.DecisionEngine.Total.{IsCostModel, decide-IsOk}
use veri_pay.Enums.Payment.{
  Channel, ExplanationMode, Mti, PaymentRail, ProcessingPath, VerificationOutcome,
}
use veri_pay.RuleEngine.{RuleEvaluationRequest}
use veri_pay.Enums.Risk.{
  DecisionAction, FrictionType, RiskBand, RiskTier, TimeoutFallback, VerificationWorkflow,
  decision_action_eq,
}
use veri_pay.Enums.Trust.{DeviceTrustState, ScaExemption}
use veri_pay.Ingress.{AuthorizationResponse, Transaction, authorize}
use veri_pay.Ingress.Authorization.{authorize-total}
use veri_pay.Tests.Floats.{naturals}
use veri_pay.RiskPolicy.{
  TierPolicy, allowed_actions_for_tier, first_policy, policy_for_tier, tier_from_band,
}

abbrev moderate_policy : TierPolicy
moderate_policy = record {
  tier = RiskTier.moderate;
  minimum_score = 26;
  maximum_score = 50;
  friction = FrictionType.biometric;
  workflow = VerificationWorkflow.push_biometric;
  timeout_seconds = 30;
  timeout_fallback = TimeoutFallback.auto_decline_and_lock;
  fallback_action = DecisionAction.decline;
  temporary_lock = true;
  analyst_escalation = false;
}

test_policy : policy_for_tier RiskTier.moderate ≡ ok moderate_policy
unfolding policy_for_tier
test_policy = refl

-- Natural numbers with the operations of `float`; a fraction is 0 or 1.
fraction_small : (a b : ℕ) → a ≤ b → 0 < b → (if leb b a then 1 else 0) ≤ 1
fraction_small a b h k = ground arith

zero_least : (n : ℕ) → leb 0 n ≡ true
zero_least n = ground arith

abbrev naturals_laws : AmountLaws naturals
naturals_laws = record {
  IsAmount = λ n. Unit;
  InUnit = λ n. n ≤ 1;
  amount_nonneg = λ x h. zero_least x;
  fraction = fraction_small;
  complement = λ p h. omega arith;
  scale = λ p x h k. tt;
  scale_right = λ x p h k. tt;
  sum_nonneg = λ x y h k. zero_least (x + y);
}

abbrev costs : CostModel naturals
costs = record {
  fraud_loss_minor = 5000;
  false_decline_loss_minor = 2500;
  monitor_cost_minor = 10;
  challenge_cost_minor = 50;
  review_cost_minor = 500;
  reversal_cost_minor = 25;
  monitor_residual_fraud_rate = 1;
  challenge_residual_fraud_rate = 0;
  review_residual_fraud_rate = 0;
  reversal_residual_fraud_rate = 0;
}

costs_valid : IsCostModel naturals naturals_laws costs
costs_valid = record {
  fraud_loss = tt;
  false_decline_loss = tt;
  monitor_cost = tt;
  challenge_cost = tt;
  review_cost = tt;
  reversal_cost = tt;
  monitor_residual = omega arith;
  challenge_residual = omega arith;
  review_residual = omega arith;
  reversal_residual = omega arith;
}

abbrev decision_request : DecisionRequest naturals
decision_request = record {
  transaction_id = "txn-1";
  risk_score = 3;
  risk_band = some RiskBand.approve;
  risk_tier = some RiskTier.no_risk;
  payment_rail = some PaymentRail.card;
  processing_path = some ProcessingPath.fast;
  verification_outcome = VerificationOutcome.pending;
  is_reversal = false;
  compliance_blocked = false;
  mandatory_challenge = false;
  evidence_available = true;
  explanation_available = false;
  cost_model = costs;
}

decide-IsOk_example : IsOk (decide naturals decision_request 1000 "job")
decide-IsOk_example =
    decide-IsOk naturals naturals_laws decision_request 1000 "job" RiskTier.no_risk refl
      (omega arith) costs_valid

abbrev card_transaction : Transaction
card_transaction = record {
  transaction_id = "txn-1";
  user_id = "user-1";
  amount_minor = 100000;
  currency = "USD";
  merchant_id = none;
  mti = Mti.authorization_request;
  channel = Channel.card_present;
  payment_rail = some PaymentRail.card;
  processing_path = none;
}

authorize-total_example :
    (answer : AuthorizationResponse) × (authorize card_transaction "c" "j" ≡ ok answer)
    × (answer.decision ≡ DecisionAction.challenge)
    × (answer.risk_tier ≡ RiskTier.moderate)
    × (is_some answer.challenge_id ≡ (answer.decision == DecisionAction.challenge))
    × (answer.escalation_required ≡ false)
authorize-total_example = authorize-total card_transaction "c" "j"

abbrev allowance : DecisionCandidate naturals
allowance = record { action = DecisionAction.allow; expected_cost_minor = 0 }

abbrev decision : DecisionResponse naturals
decision = record {
  transaction_id = "txn-1";
  action = DecisionAction.allow;
  risk_score = 3;
  risk_band = RiskBand.approve;
  risk_tier = RiskTier.no_risk;
  reason_code = cost_minimized;
  expected_cost_minor = 0;
  candidates =
      allowance ∷ record { action = DecisionAction.monitor; expected_cost_minor = 10 } ∷ [];
  friction = FrictionType.none;
  workflow = VerificationWorkflow.silent_pass;
  timeout_seconds = 0;
  timeout_fallback = TimeoutFallback.standard_audit;
  processing_path = ProcessingPath.fast;
  explanation_mode = ExplanationMode.async;
  explanation_job_id = some "explain_job";
  escalation_required = false;
  evaluated_at = 1000;
}

test_decide : decide naturals decision_request 1000 "job" ≡ ok decision
unfolding decide decide_setting hard_control outcome_control cost_response answer_from select
    cost_reason cheapest candidates_of candidate expected_cost policy_for_tier first_policy
    tier_from_band allowed_actions_for_tier
test_decide = refl

decide-allow_example :
    (tier : RiskTier) × (decision_request.risk_tier ≡ some tier)
    × IsCleared naturals decision_request
    × MayAllow naturals decision_request tier
decide-allow_example = decide-allow naturals decision_request 1000 "job" decision test_decide refl

abbrev compliance_request : ComplianceRequest
compliance_request = record {
  transaction_id = "txn-1";
  amount_minor = 9000;
  currency = "EUR";
  tokenized = true;
  sca_exemption = ScaExemption.low_value;
  authenticated = false;
  network_trusted = none;
  device_trust_state = DeviceTrustState.unknown;
  device_signal_required = false;
  low_value_threshold_minor = 3000;
  fail_closed_on_unavailable = false;
}

evaluate_compliance-pass_example :
    ((evaluate_compliance compliance_request).outcome ≡ ComplianceOutcome.pass) ↔ (
      (true ≡ true)
      × IsScaClear compliance_request
      × (compliance_request.network_trusted ≡ some true)
      × ((compliance_request.device_signal_required ≡ false)
          ⊎ (DeviceTrustState.unknown ≡ DeviceTrustState.trusted)))
evaluate_compliance-pass_example = evaluate_compliance-pass compliance_request

abbrev rule_request : RuleEvaluationRequest
rule_request = record {
  dcvv_match = some true;
  merchant_allowed = none;
  velocity_count_5m = 5;
  velocity_limit_5m = 5;
  travel_impossible = false;
  device_trusted = some false;
  network_trusted = some true;
}
