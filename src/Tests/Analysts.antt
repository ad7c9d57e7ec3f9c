-- ===== src/Tests/Analysts.antt =====
-- The theorems on the analyst API and the merchant policy at concrete inputs.
use veri_pay.AnalystApi.{Decision, RiskLevel}
use veri_pay.AnalystApi.Adjustments.{
  chain, drift_adjustment, feedback_adjustment, is_benign, is_confirmed_fraud,
}
use veri_pay.AnalystApi.Assessment.{Setup, assess}
use veri_pay.AnalystApi.Crosscheck.{IsBacked, crosscheck_numbers-IsBacked}
use veri_pay.AnalystApi.Decisions.{Follows, assess-Follows}
use veri_pay.AnalystApi.Drift.{detect_drift}
use veri_pay.AnalystApi.Feedback.{FeedbackInput, Sinks, submit_feedback}
use veri_pay.AnalystApi.Heightened.{EndsRaised, submit_feedback-heightened}
use veri_pay.AnalystApi.Profiles.{
  empty_store, feedback_for_customer, has_confirmed_fraud, history, recent, recent_benign,
  record_feedback, trust_status,
}
use veri_pay.AnalystApi.Queue.{Call, IsValid, call_feedback, call_score, run, run-start-IsValid}
use veri_pay.AnalystApi.Reasoning.{
  Numbers, allowed_number_strings, crosscheck_numbers, map_decision, map_risk_level,
  matches_allowed, verification_action_text,
}
use veri_pay.AnalystApi.Retained.{score_again}
use veri_pay.AnalystApi.Scoring.{
  ScoreResponse, TransactionInput, clamp01, percent, refine, valid_response,
}
use veri_pay.AnalystApi.Service.{Orchestrator, keep, score, score_new, start}
use veri_pay.Common.{
  All, List, [], ap, false, lookup, none, ok, pos, refl, some, sum, true, ◌∙◌, ◌∷◌, ◌≡◌,
}
use veri_pay.Enums.Risk.{DecisionAction, RiskBand, RiskTier}
use veri_pay.Tests.Floats.{naturals}

-- A service whose models see no risk and whose engine declines.
abbrev setup : Setup naturals
setup = record {
  tools = record {
    normalize = λ s. s;
    round4 = λ x. x;
    round2 = λ x. x;
    round = λ x. pos x;
    fixed2 = λ x. "x";
    show = λ x. "x";
    show_int = λ n. "n";
  };
  maths = record {
    radians = λ x. x;
    sin = λ x. x;
    cos = λ x. x;
    asin = λ x. x;
    sqrt = λ x. x;
    square = λ x. x;
    div = λ x y. x;
    sum = sum;
    median = λ xs. 0;
    fixed0 = λ x. "x";
  };
  client = record {
    build_features = λ tx before recent_ones. [];
    rich_features = λ tx before recent_ones. [];
    supervised_score = λ id features. some (record { value = some 0; model_available = none });
    anomaly_score = λ id features. some (record { value = some 0; model_available = none });
    graph_score = λ tx flagged. none;
    fuse_risk = λ id components.
        some (record { unified_score = pos 80; band = RiskBand.block; tier = RiskTier.high });
    decide = λ id fusion. some (record {
      action = DecisionAction.decline;
      risk_tier = RiskTier.high;
      risk_band = RiskBand.block;
    });
  };
  settings = record {
    use_rich_features = false;
    trust_boost_window = 3;
    trust_boost_factor = 1;
    heightened_alert_add = 1;
    gradual_drift_factor = 1;
    sudden_drift_factor = 1;
    network_fusion_weight = 1;
    fraud_quadrant_threshold = 1;
    anomaly_quadrant_threshold = 1;
  };
}

abbrev input : TransactionInput naturals
input = record {
  transaction_id = "txn-1";
  cc_num = 7;
  amount = 25;
  merchant = "m";
  category = "";
  timestamp = 1000;
  location = none;
  merchant_location = none;
  model_features = none;
}

abbrev response : ScoreResponse naturals
response = record {
  transaction_id = "txn-1";
  cc_num = 7;
  decision = Decision.block;
  risk_level = RiskLevel.high;
  verification_action =
      "Hold payment; require biometric (fingerprint/face); notify analyst immediately.";
  action = DecisionAction.decline;
  risk_band = RiskBand.block;
  risk_tier = RiskTier.high;
  fused_risk_score = pos 80;
  fraud_probability = 0;
  anomaly_score = 0;
  raw_fraud_probability = 0;
  raw_anomaly_score = 0;
  model_available = true;
  feature_mode = "basic";
  network_risk_score = 0;
  network_available = false;
  network_findings = [];
}

test_assess : assess naturals setup input (start naturals setup).store ≡ ok response
unfolding assess start empty_store clamp01 refine map_decision map_risk_level
    verification_action_text chain feedback_adjustment drift_adjustment detect_drift recent_benign
    feedback_for_customer has_confirmed_fraud is_confirmed_fraud is_benign history recent percent
test_assess = refl

test_new :
    score naturals setup input (start naturals setup)
    ≡ score_new naturals setup input
        (start naturals setup)
        (assess naturals setup input (start naturals setup).store)
unfolding score start lookup
test_new = refl

test_keep : (keep naturals setup input response (start naturals setup)).0 ≡ ok response
unfolding keep valid_response
test_keep = refl

test_score : (score naturals setup input (start naturals setup)).0 ≡ ok response
test_score =
    ap (λ m. m.0) test_new
    ∙ ap (λ m. (score_new naturals setup input (start naturals setup) m).0) test_assess
    ∙ test_keep

abbrev later_input : TransactionInput naturals
later_input = record input { amount = 99; timestamp = 2000 }

assess-Follows_example : Follows DecisionAction.decline Decision.block
assess-Follows_example =
    assess-Follows naturals setup input (start naturals setup).store response test_assess

abbrev sinks : Sinks
sinks = record { append_feedback = λ sent. false; record_monitor_label = λ id label. true }

abbrev verdict : FeedbackInput
verdict = record {
  transaction_id = "txn-1";
  cc_num = 7;
  analyst_decision = "confirmed_fraud";
  analyst_id = "analyst";
  notes = "";
  decision = Decision.block;
}

abbrev calls : List (Call naturals)
calls = call_score input ∷ call_feedback sinks verdict 5 ∷ call_score later_input ∷ []

score_again_example :
    score naturals setup later_input
      (run naturals setup calls (score naturals setup input (start naturals setup)).1)
    ≡ (ok response, run naturals setup calls (score naturals setup input (start naturals setup)).1)
score_again_example =
    score_again naturals setup input later_input (start naturals setup) response calls test_score
      refl

run-start-IsValid_example : IsValid naturals setup (run naturals setup calls (start naturals setup))
run-start-IsValid_example = run-start-IsValid naturals setup calls

test_confirmed : is_confirmed_fraud naturals setup.tools verdict.analyst_decision ≡ true
unfolding is_confirmed_fraud
test_confirmed = refl

-- The customer is told a fraud before any score.
abbrev told : Orchestrator naturals
told =
    (run naturals setup (call_feedback sinks verdict 6 ∷ [])
      (submit_feedback naturals setup sinks verdict 5 (start naturals setup)).1)

abbrev raised_response : ScoreResponse naturals
raised_response = record response {
  decision = Decision.review_stealth;
  verification_action = "Hold payment; require biometric; notify analyst.";
  fraud_probability = 1;
}

test_raised : assess naturals setup input told.store ≡ ok raised_response
unfolding assess start empty_store clamp01 refine map_decision map_risk_level
    verification_action_text chain feedback_adjustment drift_adjustment detect_drift recent_benign
    feedback_for_customer has_confirmed_fraud is_confirmed_fraud is_benign history recent percent
    submit_feedback run record_feedback
test_raised = refl

test_fresh : lookup "txn-1" told.scored ≡ none
unfolding start lookup submit_feedback run
test_fresh = refl

test_told :
    score naturals setup input told
    ≡ score_new naturals setup input told (assess naturals setup input told.store)
unfolding score start lookup submit_feedback run
test_told = refl

test_keep_raised : (keep naturals setup input raised_response told).0 ≡ ok raised_response
unfolding keep valid_response
test_keep_raised = refl

test_answered : (score naturals setup input told).0 ≡ ok raised_response
test_answered =
    ap (λ m. m.0) test_told
    ∙ ap (λ m. (score_new naturals setup input told m).0) test_raised
    ∙ test_keep_raised

submit_feedback-heightened_example :
    ((trust_status naturals setup.tools 7 3 told.store).level ≡ "alert")
    × EndsRaised naturals setup input told
submit_feedback-heightened_example =
    submit_feedback-heightened naturals setup sinks verdict 5 3 (call_feedback sinks verdict 6 ∷ [])
      (start naturals setup) input test_confirmed refl

-- A text that cites the number of the payload.
abbrev numbers : Numbers naturals
numbers = record { find_numbers = λ s. s ∷ []; to_float = λ s. some 500; absolute = λ x. x }

test_crosscheck : crosscheck_numbers naturals numbers "500" ("500" ∷ []) 200 ≡ (true, false)
unfolding crosscheck_numbers allowed_number_strings matches_allowed
test_crosscheck = refl

crosscheck_numbers-IsBacked_example :
    All (IsBacked naturals numbers 200 ("500" ∷ [])) (numbers.find_numbers "500")
crosscheck_numbers-IsBacked_example =
    crosscheck_numbers-IsBacked naturals numbers "500" ("500" ∷ []) 200 test_crosscheck
