-- ===== src/AnalystApi/Feedback.antt =====
-- services/analyst_api/veripay_analyst_api/service.py: the verdicts of the analysts, where they are
-- forwarded, and their statistics.
use veri_pay.AnalystApi.{Decision, decision_eq}
use veri_pay.AnalystApi.Adjustments.{is_benign, is_confirmed_fraud, to_review_label}
use veri_pay.AnalystApi.Assessment.{Setup}
use veri_pay.AnalystApi.Profiles.{StoredFeedback, record_feedback}
use veri_pay.AnalystApi.Service.{Orchestrator}
use veri_pay.Common.{
  Bool, List, String, [], contains, count_if, filter, if◌then◌else◌, length, list_eq, map, nat_eq,
  option_eq, string_eq, text_append, ℕ, ◌==◌, ◌∷◌,
}
use veri_pay.DecisionEngine.Float.{Float}
use veri_pay.Enums.Dispute.{dispute_reason_eq, dispute_status_eq}
use veri_pay.Enums.Payment.{
  channel_eq, payment_rail_eq, processing_path_eq, verification_outcome_eq,
}
use veri_pay.Enums.Risk.{decision_action_eq, risk_band_eq, risk_tier_eq}
use veri_pay.Enums.Token.{token_status_eq}
use veri_pay.Enums.Trust.{
  device_platform_eq, device_trust_state_eq, gpv_outcome_eq, sca_exemption_eq,
}
use veri_pay.FeedbackLoop.{review_label_eq}

pub record FeedbackInput : Type 0 where
  pub transaction_id : String
  pub cc_num : ℕ
  pub analyst_decision : String
  pub analyst_id : String
  pub notes : String
  pub decision : Decision

-- The value of a `Decision`.
unfoldable pub decision_value : Decision → String
decision_value Decision.block = "BLOCK"
decision_value Decision.review_stealth = "REVIEW_STEALTH"
decision_value Decision.review_unusual = "REVIEW_UNUSUAL"
decision_value Decision.pass = "PASS"

-- What is sent to the feedback loop and to the model monitor.
pub record Forwarded : Type 0 where
  pub idempotency_key : String
  pub transaction_id : String
  pub analyst_id : String
  pub label : String
  pub decision_action : String

-- The two services that take a verdict; false where the call raises.
pub record Sinks : Type 0 where
  pub append_feedback : Forwarded → Bool
  pub record_monitor_label : String → String → Bool

-- One row of the statistics; the rates are quotients of its counts and are left out.
pub record FeedbackRow : Type 0 where
  pub decision : Decision
  pub total_reviewed : ℕ
  pub confirmed_fraud : ℕ
  pub false_alarm : ℕ

pub record FeedbackStats : Type 0 where
  pub total_feedback : ℕ
  pub confirmed_fraud : ℕ
  pub false_alarm : ℕ
  pub customer_confirmed_legitimate : ℕ
  pub feedback_by_decision : List FeedbackRow

module _ (f : Float) (u : Setup f) where
  abbrev pub forwarded_of : FeedbackInput → Forwarded
  forwarded_of r =
      let label = to_review_label f u.tools r.analyst_decision in
      record {
        idempotency_key = text_append r.transaction_id (text_append ":" label);
        transaction_id = r.transaction_id;
        analyst_id = r.analyst_id;
        label = label;
        decision_action = decision_value r.decision;
      }

  abbrev pub step_note : String → Bool → String
  step_note name sent = text_append name (if sent then ":ok" else ":unavailable")

  abbrev pub stored_feedback : FeedbackInput → ℕ → StoredFeedback
  stored_feedback r now = record {
    transaction_id = r.transaction_id;
    cc_num = r.cc_num;
    analyst_decision = r.analyst_decision;
    decision = r.decision;
    notes = r.notes;
    timestamp = now;
  }

  -- `submit_feedback`, with the note of its result.
  unfoldable pub submit_feedback :
      Sinks → FeedbackInput → ℕ → Orchestrator f → String × Orchestrator f
  submit_feedback sinks r now o =
      let sent = forwarded_of r in
      (
        text_append (step_note "feedback_loop" (sinks.append_feedback sent)) (
            text_append "; "
              (step_note "model_monitor" (sinks.record_monitor_label r.transaction_id sent.label))),
        record o { store = record_feedback f (stored_feedback r now) o.store },
      )

  abbrev pub verdict_confirms : StoredFeedback → Bool
  verdict_confirms r = is_confirmed_fraud f u.tools r.analyst_decision

  abbrev pub verdict_clears : StoredFeedback → Bool
  verdict_clears r = is_benign f u.tools r.analyst_decision

  abbrev pub verdict_in : List String → StoredFeedback → Bool
  verdict_in labels r = contains (u.tools.normalize r.analyst_decision) labels

  -- The records of one decision, `by_decision.get(decision, [])`.
  abbrev pub bucket_of : Decision → List StoredFeedback → List StoredFeedback
  bucket_of d = filter (λ (r : StoredFeedback). r.decision == d)

  abbrev pub row_of : List StoredFeedback → Decision → FeedbackRow
  row_of records d =
      let bucket = bucket_of d records in
      record {
        decision = d;
        total_reviewed = length bucket;
        confirmed_fraud = count_if verdict_confirms bucket;
        false_alarm = count_if verdict_clears bucket;
      }

  unfoldable pub feedback_stats : Orchestrator f → FeedbackStats
  feedback_stats o =
      let records = o.store.feedback in
      record {
        total_feedback = length records;
        confirmed_fraud = count_if verdict_confirms records;
        false_alarm = count_if (verdict_in ("false_alarm" ∷ "false_positive" ∷ [])) records;
        customer_confirmed_legitimate =
            count_if (verdict_in ("customer_confirmed_legitimate" ∷ [])) records;
        feedback_by_decision = map (row_of records) (
            Decision.block ∷ Decision.review_stealth ∷ Decision.review_unusual ∷ Decision.pass
            ∷ []);
      }
