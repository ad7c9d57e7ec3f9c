-- ===== src/AnalystApi/Profiles.antt =====
-- services/analyst_api/veripay_analyst_api/profiles.py: the store of the customers' transactions and
-- of the analysts' verdicts. A dictionary from card numbers is a function.
use veri_pay.AnalystApi.{Decision, GeoPoint, Tools}
use veri_pay.AnalystApi.Adjustments.{every, is_benign, is_confirmed_fraud, last_of}
use veri_pay.Common.{
  Bool, Dict, List, Option, String, [], any, filter, if◌then◌else◌, insert, leb, length, lookup,
  nat_beq, seconds, ℕ, ◌&&◌, ◌*◌, ◌++◌, ◌+◌, ◌∷◌,
}
use veri_pay.DecisionEngine.Float.{Float}

pub record StoredTransaction (f : Float) : Type 0 where
  pub transaction_id : String
  pub cc_num : ℕ
  pub amount : f.Real
  pub merchant : String
  pub category : String
  pub timestamp : ℕ
  pub location : Option (GeoPoint f)
  pub merchant_location : Option (GeoPoint f)
  pub decision : Decision

pub record StoredFeedback : Type 0 where
  pub transaction_id : String
  pub cc_num : ℕ
  pub analyst_decision : String
  pub decision : Decision
  pub notes : String
  pub timestamp : ℕ

pub record ProfileStore (f : Float) : Type 0 where
  pub transactions : ℕ → List (StoredTransaction f)
  pub feedback : List StoredFeedback
  pub customer_by_tx : Dict ℕ

-- `d[k] = v` of a dictionary that is a function.
abbrev pub set_at {ℓ} : {A : Type ℓ} → ℕ → A → (ℕ → A) → ℕ → A
set_at k v d j = if nat_beq k j then v else d j

pub record TrustStatus : Type 0 where
  pub level : String
  pub message : String

abbrev pub days : ℕ → ℕ
days n = seconds (86400 * n)

module _ (f : Float) where
  unfoldable pub empty_store : ProfileStore f
  empty_store = record { transactions = λ j. []; feedback = []; customer_by_tx = [] }

  unfoldable pub add_transaction : StoredTransaction f → ProfileStore f → ProfileStore f
  add_transaction tx s = record s {
    transactions = set_at tx.cc_num (s.transactions tx.cc_num ++ tx ∷ []) s.transactions;
    customer_by_tx = insert tx.transaction_id tx.cc_num s.customer_by_tx;
  }

  -- `sorted(xs, key=lambda t: t.timestamp)`, which is stable.
  abbrev pub place : StoredTransaction f → List (StoredTransaction f) → List (StoredTransaction f)
  place x [] = x ∷ []
  place x (y ∷ ys) =
      let rest = place x ys in if leb x.timestamp y.timestamp then x ∷ y ∷ ys else y ∷ rest

  abbrev pub sort_by_time : List (StoredTransaction f) → List (StoredTransaction f)
  sort_by_time [] = []
  sort_by_time (x ∷ xs) = place x (sort_by_time xs)

  unfoldable pub history : ℕ → ProfileStore f → List (StoredTransaction f)
  history customer s = sort_by_time (s.transactions customer)

  -- The time of the last transaction.
  abbrev pub last_time : List (StoredTransaction f) → ℕ
  last_time [] = 0
  last_time (x ∷ []) = x.timestamp
  last_time (x ∷ y ∷ ys) = last_time (y ∷ ys)

  -- `recent`: `tx.timestamp >= cutoff`, written without a difference.
  unfoldable pub recent : ℕ → ℕ → ProfileStore f → List (StoredTransaction f)
  unfolding history
  recent customer n s =
      let past = history customer s in
      filter (λ (x : StoredTransaction f). leb (last_time past) (x.timestamp + days n)) past

  unfoldable pub record_feedback : StoredFeedback → ProfileStore f → ProfileStore f
  record_feedback r s = record s { feedback = s.feedback ++ r ∷ [] }

  abbrev pub verdicts_of : ℕ → List StoredFeedback → List String
  verdicts_of customer [] = []
  verdicts_of customer (r ∷ rs) =
      let rest = verdicts_of customer rs in
      if nat_beq r.cc_num customer then r.analyst_decision ∷ rest else rest

  unfoldable pub feedback_for_customer : ℕ → ProfileStore f → List String
  feedback_for_customer customer s = verdicts_of customer s.feedback

  unfoldable pub customer_for_transaction : String → ProfileStore f → Option ℕ
  customer_for_transaction transaction_id s = lookup transaction_id s.customer_by_tx

module _ (f : Float) (t : Tools f) where
  unfoldable pub recent_benign : ℕ → ℕ → ProfileStore f → Bool
  unfolding feedback_for_customer is_benign
  recent_benign customer window s =
      let labels = feedback_for_customer f customer s in
      leb window (length labels) && every (is_benign f t) (last_of window labels)

  unfoldable pub has_confirmed_fraud : ℕ → ProfileStore f → Bool
  unfolding feedback_for_customer is_confirmed_fraud
  has_confirmed_fraud customer s = any (is_confirmed_fraud f t) (feedback_for_customer f customer s)

  unfoldable pub trust_status : ℕ → ℕ → ProfileStore f → TrustStatus
  unfolding recent_benign has_confirmed_fraud
  trust_status customer window s =
      if has_confirmed_fraud customer s
      then record {
        level = "alert";
        message = "Confirmed fraud on this account; alerts are heightened.";
      }
      else if recent_benign customer window s
      then record {
        level = "boosted";
        message = "Recent false alarms confirmed as legitimate; trust boosted.";
      }
      else record { level = "normal"; message = "No recent feedback; normal trust level." }
