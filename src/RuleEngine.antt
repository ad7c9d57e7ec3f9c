-- ===== src/RuleEngine.antt =====
-- `evaluate_rules` of services/rule_engine/veripay_rule_engine/service.py.
pub mod Triggers
use veri_pay.Common.{
  Bool, List, Option, String, [], any, false, if◌then◌else◌, ltb, none, not, some, ℕ, ◌&&◌, ◌∷◌,
}

pub data RuleCode : Type 0 where
  dcvv_mismatch merchant_lock burner_velocity impossible_travel signal_contradiction : RuleCode

-- `travel_impossible` is the field `impossible_travel`, whose name a rule has too.
pub record RuleEvaluationRequest : Type 0 where
  pub dcvv_match : Option Bool
  pub merchant_allowed : Option Bool
  pub velocity_count_5m : ℕ
  pub velocity_limit_5m : ℕ
  pub travel_impossible : Bool
  pub device_trusted : Option Bool
  pub network_trusted : Option Bool

pub record RuleFinding : Type 0 where
  pub code : RuleCode
  pub triggered : Bool
  pub severity : ℕ
  pub reason : String

pub record RuleEvaluationResponse : Type 0 where
  pub triggered : Bool
  pub findings : List RuleFinding

-- `x is False` and `x is True`
abbrev pub is_false : Option Bool → Bool
is_false none = false
is_false (some b) = not b

abbrev pub is_true : Option Bool → Bool
is_true none = false
is_true (some b) = b

-- A finding of the rule, by its test: its severity and reason if the test holds.
abbrev pub rule : RuleCode → Bool → ℕ → String → RuleFinding
rule code test severity reason = record {
  code = code;
  triggered = test;
  severity = if test then severity else 0;
  reason = if test then reason else "Not triggered";
}

unfoldable pub rule_findings : RuleEvaluationRequest → List RuleFinding
rule_findings r =
    rule RuleCode.dcvv_mismatch (is_false r.dcvv_match) 100 "Dynamic CVV did not match"
    ∷ rule RuleCode.merchant_lock (is_false r.merchant_allowed) 90
        "Merchant policy rejected transaction"
    ∷ rule RuleCode.burner_velocity (ltb r.velocity_limit_5m r.velocity_count_5m) 80
        "Five-minute velocity limit exceeded"
    ∷ rule RuleCode.impossible_travel r.travel_impossible 85
        "Transaction location implies impossible travel"
    ∷ rule RuleCode.signal_contradiction (is_false r.device_trusted && is_true r.network_trusted) 60
        "Device and network trust signals contradict"
    ∷ []

unfoldable pub evaluate_rules : RuleEvaluationRequest → RuleEvaluationResponse
unfolding rule_findings
evaluate_rules r =
    let findings = rule_findings r in
    record { triggered = any (λ x. x.triggered) findings; findings = findings }
