-- ===== src/AnalystApi/Service.antt =====
-- services/analyst_api/veripay_analyst_api/service.py: `AnalystOrchestrator`, its scores, alerts,
-- lookups and feedback.
use veri_pay.AnalystApi.{Decision, RiskLevel, decision_eq}
use veri_pay.AnalystApi.Assessment.{Setup, assess}
use veri_pay.AnalystApi.Profiles.{
  ProfileStore, StoredTransaction, add_transaction, empty_store, set_at,
}
use veri_pay.AnalystApi.Scoring.{
  ScoreError, ScoreResponse, TransactionInput, invalid_response, not_scored, valid_response,
}
use veri_pay.Common.{
  Dict, List, Option, Result, String, [], err, if◌then◌else◌, insert, list_eq, lookup, nat_eq, none,
  not, ok, option_eq, or_raise, some, string_eq, text_true, ℕ, ◌++◌, ◌==◌, ◌∷◌,
}
use veri_pay.DecisionEngine.Float.{Float}
use veri_pay.Enums.Dispute.{dispute_reason_eq, dispute_status_eq}
use veri_pay.Enums.Payment.{
  channel_eq, payment_rail_eq, processing_path_eq, verification_outcome_eq,
}
use veri_pay.Enums.Risk.{decision_action_eq, risk_band_eq, risk_tier_eq}
use veri_pay.Enums.Token.{token_status_eq}
use veri_pay.Enums.Trust.{
  device_platform_eq, device_trust_state_eq, gpv_outcome_eq, sca_exemption_eq,
}

-- `AlertItem`; the customer's name is made of the card number, and the currency is a constant.
pub record AlertItem (f : Float) : Type 0 where
  pub transaction_id : String
  pub cc_num : ℕ
  pub amount : f.Real
  pub merchant : String
  pub time : ℕ
  pub decision : Decision
  pub risk_level : RiskLevel
  pub fraud_probability : f.Real
  pub anomaly_score : f.Real

-- The orchestrator's state, without the retained explanations.
pub record Orchestrator (f : Float) : Type 0 where
  pub store : ProfileStore f
  pub scored : Dict (ScoreResponse f)
  pub lookup_by_customer : ℕ → Option String
  pub alerts : List (AlertItem f)

module _ (f : Float) (u : Setup f) where
  unfoldable pub start : Orchestrator f
  start = record { store = empty_store f; scored = []; lookup_by_customer = λ j. none; alerts = [] }

  abbrev pub stored_of : TransactionInput f → Decision → StoredTransaction f
  stored_of tx decision = record {
    transaction_id = tx.transaction_id;
    cc_num = tx.cc_num;
    amount = tx.amount;
    merchant = tx.merchant;
    category = tx.category;
    timestamp = tx.timestamp;
    location = tx.location;
    merchant_location = tx.merchant_location;
    decision = decision;
  }

  abbrev pub alert_of : TransactionInput f → ScoreResponse f → AlertItem f
  alert_of tx r = record {
    transaction_id = tx.transaction_id;
    cc_num = tx.cc_num;
    amount = u.tools.round2 tx.amount;
    merchant = tx.merchant;
    time = tx.timestamp;
    decision = r.decision;
    risk_level = r.risk_level;
    fraud_probability = r.fraud_probability;
    anomaly_score = r.anomaly_score;
  }

  -- From the registration of the transaction on. The constructor of the response checks its fields
  -- after the transaction is stored.
  unfoldable pub keep :
      TransactionInput f
      → ScoreResponse f
      → Orchestrator f
      → Result ScoreError (ScoreResponse f) × Orchestrator f
  keep tx r o =
      let store = add_transaction f (stored_of tx r.decision) o.store in
      if not (valid_response f u.tools r)
      then (err invalid_response, record o { store = store })
      else (
        ok r,
        record {
          store = store;
          scored = insert tx.transaction_id r o.scored;
          lookup_by_customer = set_at tx.cc_num (some tx.transaction_id) o.lookup_by_customer;
          alerts = if r.decision == Decision.pass then o.alerts else o.alerts ++ alert_of tx r ∷ [];
        },
      )

  abbrev pub score_new :
      TransactionInput f
      → Orchestrator f
      → Result ScoreError (ScoreResponse f)
      → Result ScoreError (ScoreResponse f) × Orchestrator f
  score_new tx o (err e) = (err e, o)
  score_new tx o (ok r) = keep tx r o

  -- `score`
  unfoldable pub score :
      TransactionInput f → Orchestrator f → Result ScoreError (ScoreResponse f) × Orchestrator f
  unfolding assess keep
  score tx o = elim (lookup tx.transaction_id o.scored) [
    | some r ↦ (ok r, o)
    | none ↦ score_new tx o (assess f u tx o.store)
  ]

  -- `key`: the identifier, unless it is absent or empty, else the last one of the customer; a missing
  -- customer and 0 are -1, which no customer has.
  abbrev pub lookup_key : Option String → Option ℕ → Orchestrator f → Option String
  lookup_key transaction_id cc_num o =
      if text_true transaction_id
      then transaction_id
      else elim cc_num [ none ↦ none | some c ↦ if c == 0 then none else o.lookup_by_customer c ]

  -- `lookup_score`
  unfoldable pub lookup_score :
      Option String → Option ℕ → Orchestrator f → Result ScoreError (ScoreResponse f)
  lookup_score transaction_id cc_num o = elim (lookup_key transaction_id cc_num o) [
    | none ↦ err not_scored
    | some key ↦ or_raise (lookup key o.scored) not_scored
  ]
