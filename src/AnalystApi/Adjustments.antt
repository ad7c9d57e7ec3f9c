-- ===== src/AnalystApi/Adjustments.antt =====
-- services/analyst_api/veripay_analyst_api/adjustments.py: the adjustments of a score by the feedback
-- of the analysts and by drift. A factor such as 0.7 is the float `7 / 10`.
use veri_pay.AnalystApi.{Tools, decision_eq}
use veri_pay.Common.{
  Bool, List, Option, String, [], any, contains, if◌then◌else◌, is_some, leb, length, list_eq,
  nat_eq, none, option_eq, or_else, some, string_eq, suc, text_append, true, zero, ℕ, ◌&&◌, ◌-◌,
  ◌==◌, ◌∷◌,
}
use veri_pay.DecisionEngine.Float.{Float}
use veri_pay.Enums.Dispute.{dispute_reason_eq, dispute_status_eq}
use veri_pay.Enums.Payment.{
  channel_eq, payment_rail_eq, processing_path_eq, verification_outcome_eq,
}
use veri_pay.Enums.Risk.{decision_action_eq, risk_band_eq, risk_tier_eq}
use veri_pay.Enums.Token.{token_status_eq}
use veri_pay.Enums.Trust.{
  device_platform_eq, device_trust_state_eq, gpv_outcome_eq, sca_exemption_eq,
}

pub record FeedbackOutcome (f : Float) : Type 0 where
  pub anomaly_factor : f.Real
  pub fraud_add : f.Real
  pub effect : Option String
  pub description : String

pub record DriftOutcome (f : Float) : Type 0 where
  pub anomaly_factor : f.Real
  pub effect : Option String
  pub description : String

-- `Adjustment`, without the list of its two parts, which no caller reads.
pub record Adjustment (f : Float) : Type 0 where
  pub anomaly_factor : f.Real
  pub fraud_add : f.Real

abbrev pub every : (String → Bool) → List String → Bool
every p [] = true
every p (x ∷ xs) = p x && every p xs

abbrev pub skip : ℕ → List String → List String
skip n [] = []
skip zero (x ∷ xs) = x ∷ xs
skip (suc n) (x ∷ xs) = skip n xs

-- `xs[-n:]`: for `n = 0` it is the whole list.
abbrev pub last_of : ℕ → List String → List String
last_of n xs = if n == 0 then xs else skip (length xs - n) xs

abbrev pub benign_labels : List String
benign_labels =
    "false_alarm" ∷ "false_positive" ∷ "customer_confirmed_legitimate" ∷ "legitimate" ∷ []

abbrev pub confirmed_labels : List String
confirmed_labels = "confirmed_fraud" ∷ "confirmed_fraud?" ∷ []

module _ (f : Float) (t : Tools f) where
  unfoldable pub is_benign : String → Bool
  is_benign label = contains (t.normalize label) benign_labels

  unfoldable pub is_confirmed_fraud : String → Bool
  is_confirmed_fraud label = contains (t.normalize label) confirmed_labels

  unfoldable pub to_review_label : String → String
  to_review_label label =
      let normalized = t.normalize label in
      if contains normalized confirmed_labels
      then "CONFIRMED_FRAUD"
      else if contains normalized ("false_alarm" ∷ "false_positive" ∷ [])
      then "FALSE_POSITIVE"
      else if contains normalized ("legitimate" ∷ "customer_confirmed_legitimate" ∷ [])
      then "LEGITIMATE"
      else "NEEDS_REVIEW"

  abbrev pub no_feedback : FeedbackOutcome f
  no_feedback = record {
    anomaly_factor = f.of_nat 1;
    fraud_add = f.of_nat 0;
    effect = none;
    description = "";
  }

  -- The first step of `feedback_adjustment`: a verdict that confirmed fraud.
  abbrev pub alerted : f.Real → Bool → FeedbackOutcome f
  alerted add any_confirmed =
      if any_confirmed
      then record no_feedback {
        fraud_add = add;
        effect = some "heightened_alert";
        description =
            text_append
              "Recent analyst feedback confirmed fraud on this customer; fraud probability +"
              (text_append (t.fixed2 add) ".");
      }
      else no_feedback

  -- The second step: as many benign verdicts as the window.
  abbrev pub boosted : ℕ → f.Real → Bool → FeedbackOutcome f → FeedbackOutcome f
  boosted window trust_factor all_benign outcome =
      let description = text_append "Last " (
        text_append (t.show_int window) (
          text_append " analyst verdicts for this customer were benign; anomaly score ×"
            (text_append (t.show trust_factor) "."))) in
      if all_benign
      then record outcome {
        anomaly_factor = trust_factor;
        effect = or_else outcome.effect (some "trust_boost");
        description =
            if outcome.description == ""
            then description
            else text_append outcome.description (text_append " " description);
      }
      else outcome

  -- The last step: no effect is said as such.
  abbrev pub named_effect : FeedbackOutcome f → FeedbackOutcome f
  named_effect outcome = if is_some outcome.effect then outcome else record outcome {
    effect = some "no_adjustment";
    description = "No recent feedback; no adjustment.";
  }

  abbrev pub window_benign : ℕ → List String → Bool
  window_benign window labels =
      let recent = last_of window labels in leb window (length recent) && every is_benign recent

  -- `labels[-window:] if labels else []` is `labels[-window:]`.
  unfoldable pub feedback_adjustment : List String → ℕ → f.Real → f.Real → FeedbackOutcome f
  unfolding is_benign is_confirmed_fraud
  feedback_adjustment labels window trust_factor add = named_effect (
      boosted window trust_factor (window_benign window labels)
        (alerted add (any is_confirmed_fraud labels)))

  unfoldable pub drift_adjustment : Option String → Bool → f.Real → f.Real → DriftOutcome f
  drift_adjustment drift_kind confirmed_by_feedback gradual_factor sudden_factor =
      if drift_kind == some "gradual" && confirmed_by_feedback
      then record {
        anomaly_factor = gradual_factor;
        effect = some "gradual_drift";
        description =
            text_append
              "Customer relocated / changed lifestyle (gradual drift) and it was confirmed by feedback; anomaly score ×"
              (text_append (t.show gradual_factor) ".");
      }
      else if drift_kind == some "sudden"
      then record {
        anomaly_factor = sudden_factor;
        effect = some "sudden_drift";
        description =
            text_append
              "Sudden drift: location jumped hundreds of kilometres in minutes; anomaly score ×"
              (text_append (t.show sudden_factor) ".");
      }
      else record {
        anomaly_factor = f.of_nat 1;
        effect = some "no_adjustment";
        description = "No drift; no adjustment.";
      }

  unfoldable pub chain : FeedbackOutcome f → DriftOutcome f → Adjustment f
  chain feedback drift = record {
    anomaly_factor = f.mul feedback.anomaly_factor drift.anomaly_factor;
    fraud_add = feedback.fraud_add;
  }
