-- ===== src/FeedbackLoop.antt =====
-- services/feedback_loop/veripay_feedback_loop/service.py: the append-only feedback of the analysts.
-- The clock reading of a call is an argument.
pub mod Append
use veri_pay.Common.{
  Dict, Eq, List, Option, String, [], arith, filter, get_or, insert, length, lookup, nat_beq, none,
  some, string_eq, text_append, true, ℕ, ◌++◌, ◌+◌, ◌==◌, ◌↔◌, ◌∷◌, ◌≡◌,
}

pub data ReviewLabel : Type 0 where
  confirmed_fraud legitimate needs_review false_positive : ReviewLabel

abbrev pub review_label_index : ReviewLabel → ℕ
review_label_index ReviewLabel.confirmed_fraud = 0
review_label_index ReviewLabel.legitimate = 1
review_label_index ReviewLabel.needs_review = 2
review_label_index ReviewLabel.false_positive = 3

pub review_label_beq_iff :
    (a b : ReviewLabel) → (nat_beq (review_label_index a) (review_label_index b) ≡ true) ↔ (a ≡ b)
review_label_beq_iff a b = ground arith

instance abbrev pub review_label_eq : Eq ReviewLabel
review_label_eq = record {
  beq = λ a b. nat_beq (review_label_index a) (review_label_index b);
  beq_iff = review_label_beq_iff;
}

pub record FeedbackSubmission : Type 0 where
  pub idempotency_key : String
  pub transaction_id : String
  pub analyst_id : String
  pub label : ReviewLabel
  pub reason_codes : List String
  pub decision_action : String
  pub created_at : Option ℕ

pub record FeedbackRecord : Type 0 where
  pub event_id : String
  pub idempotency_key : String
  pub transaction_id : String
  pub analyst_id : String
  pub label : ReviewLabel
  pub reason_codes : List String
  pub decision_action : String
  pub created_at : ℕ

-- `InMemoryFeedbackRepository`
pub record FeedbackRepository : Type 0 where
  pub records : List FeedbackRecord
  pub by_key : Dict FeedbackRecord

abbrev pub empty_feedback : FeedbackRepository
empty_feedback = record { records = []; by_key = [] }

-- The record of a submission; `str` prints a number in decimal.
abbrev pub record_of : (ℕ → String) → FeedbackSubmission → ℕ → FeedbackRepository → FeedbackRecord
record_of str s now repo = record {
  event_id = text_append "feedback_" (str (length repo.records + 1));
  idempotency_key = s.idempotency_key;
  transaction_id = s.transaction_id;
  analyst_id = s.analyst_id;
  label = s.label;
  reason_codes = s.reason_codes;
  decision_action = s.decision_action;
  created_at = get_or s.created_at now;
}

-- `append`; `str` prints a number in decimal.
unfoldable pub append_feedback :
    (ℕ → String) → FeedbackSubmission → ℕ → FeedbackRepository → FeedbackRecord × FeedbackRepository
append_feedback str s now repo = elim (lookup s.idempotency_key repo.by_key) [
  | some existing ↦ (existing, repo)
  | none ↦
      let r = record_of str s now repo in
      (
        r,
        record {
          records = repo.records ++ (r ∷ []);
          by_key = insert r.idempotency_key r repo.by_key;
        },
      )
]

-- `list`
unfoldable pub list_feedback : Option String → FeedbackRepository → List FeedbackRecord
list_feedback none repo = repo.records
list_feedback (some id) repo = filter (λ r. r.transaction_id == id) repo.records

unfoldable pub export_feedback :
    FeedbackRepository → Option String → Option ReviewLabel → List FeedbackRecord
unfolding list_feedback
export_feedback repo id none = list_feedback id repo
export_feedback repo id (some wanted) = filter (λ r. r.label == wanted) (list_feedback id repo)
