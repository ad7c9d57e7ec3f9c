-- ===== src/ModelMonitor.antt =====
-- services/model_monitor/veripay_model_monitor/service.py: the window of observations, the labels of
-- the analysts, and the drift report. Floats are the parameter of the decision engine's model;
-- numpy's operations are parameters.
pub mod Promotion
pub mod Window
pub mod Labels
pub mod Gate
pub mod Registration
use Prim.Native.Nat.{max}
use veri_pay.Common.{
  Bool, Dict, List, Option, String, [], contains, count_if, get_or, if◌then◌else◌, insert, is_some,
  length, list_eq, lookup, ltb, map, nat_eq, none, not, option_eq, or_else, some, string_eq, sum,
  values, ℕ, ◌*◌, ◌++◌, ◌+◌, ◌==◌, ◌||◌, ◌∷◌,
}
use veri_pay.DecisionEngine.Float.{Float}
use veri_pay.Enums.Dispute.{dispute_reason_eq, dispute_status_eq}
use veri_pay.Enums.Payment.{
  channel_eq, payment_rail_eq, processing_path_eq, verification_outcome_eq,
}
use veri_pay.Enums.Risk.{decision_action_eq, risk_band_eq, risk_tier_eq}
use veri_pay.Enums.Token.{token_status_eq}
use veri_pay.Enums.Trust.{
  device_platform_eq, device_trust_state_eq, gpv_outcome_eq, sca_exemption_eq,
}

pub data MonitorLabel : Type 0 where
  confirmed_fraud legitimate needs_review false_positive : MonitorLabel

-- The value of a `MonitorLabel`.
unfoldable pub monitor_label_value : MonitorLabel → String
monitor_label_value MonitorLabel.confirmed_fraud = "CONFIRMED_FRAUD"
monitor_label_value MonitorLabel.legitimate = "LEGITIMATE"
monitor_label_value MonitorLabel.needs_review = "NEEDS_REVIEW"
monitor_label_value MonitorLabel.false_positive = "FALSE_POSITIVE"

pub record Observation (f : Float) : Type 0 where
  pub transaction_id : String
  pub features : Dict f.Real
  pub score : f.Real
  pub label : Option MonitorLabel
  pub observed_at : Option ℕ

-- `_label_to_flag`; a member of `MonitorLabel` equals its value.
unfoldable pub label_to_flag : Option String → Option ℕ
label_to_flag none = none
label_to_flag (some label) =
    if label == "CONFIRMED_FRAUD"
    then some 1
    else if contains label ("LEGITIMATE" ∷ "FALSE_POSITIVE" ∷ [])
    then some 0
    else none

abbrev pub label_text : Option MonitorLabel → Option String
label_text none = none
label_text (some label) = some (monitor_label_value label)

-- A record of the feedback loop's export, as far as it is read.
pub record ExportedLabel : Type 0 where
  pub transaction_id : String
  pub label : Option String

-- `label in {str(value) for value in MonitorLabel}`
abbrev pub known_label : String → Bool
known_label label =
    contains label ("CONFIRMED_FRAUD" ∷ "LEGITIMATE" ∷ "NEEDS_REVIEW" ∷ "FALSE_POSITIVE" ∷ [])

abbrev pub keep_label : ExportedLabel → Dict String → Dict String
keep_label r result = elim r.label [
  | none ↦ result
  | some label ↦ if known_label label then insert r.transaction_id label result else result
]

abbrev pub keep_labels : List ExportedLabel → Dict String → Dict String
keep_labels [] result = result
keep_labels (r ∷ rs) result = keep_labels rs (keep_label r result)

-- `HttpFeedbackProvider.labeled_transactions`; none is an answer that does not come or is no JSON.
unfoldable pub labeled_transactions : Option (List ExportedLabel) → Dict String
labeled_transactions none = []
labeled_transactions (some records) = keep_labels records []

-- What numpy computes for the monitor: `histogram(values, bins)[0]`, `sum` and `log`, and the floats
-- that the code writes or tests.
pub record Numpy (f : Float) : Type 0 where
  pub histogram : List f.Real → List f.Real → List ℕ
  pub sum : List f.Real → f.Real
  pub log : f.Real → f.Real
  pub div : f.Real → f.Real → f.Real
  pub infinity : f.Real

-- The histogram of a feature in a reference profile.
pub record ReferenceFeature (f : Float) : Type 0 where
  pub edges : List f.Real
  pub counts : List ℕ

pub data DriftVerdict : Type 0 where
  insufficient_data drift stable : DriftVerdict

pub record DriftReport (f : Float) : Type 0 where
  pub verdict : DriftVerdict
  pub feature_psi : Dict f.Real
  pub max_psi : Option f.Real
  pub window_size : ℕ
  pub missing_rate : f.Real

module _ (f : Float) where
  -- `self.observations.append(observation)`, then `popleft` while there are more than `maxlen`.
  abbrev pub pop_to : ℕ → List (Observation f) → List (Observation f)
  pop_to maxlen [] = []
  pop_to maxlen (o ∷ os) =
      let rest = pop_to maxlen os in if ltb maxlen (length (o ∷ os)) then rest else o ∷ os

  unfoldable pub add_observation : ℕ → Observation f → List (Observation f) → List (Observation f)
  add_observation maxlen o os = pop_to maxlen (os ++ o ∷ [])

  -- The flag of one observation in `collect_labeled`.
  abbrev pub flag_of : Dict String → Observation f → Option ℕ
  flag_of feedback_labels o =
      or_else (label_to_flag (lookup o.transaction_id feedback_labels))
        (label_to_flag (label_text o.label))

  unfoldable pub collect_labeled : List (Observation f) → Dict String → List (Observation f × ℕ)
  collect_labeled [] feedback_labels = []
  collect_labeled (o ∷ os) feedback_labels = elim (flag_of feedback_labels o) [
    | none ↦ collect_labeled os feedback_labels
    | some flag ↦ (o, flag) ∷ collect_labeled os feedback_labels
  ]

module _ (f : Float) (n : Numpy f) where
  abbrev pub epsilon : f.Real
  epsilon = f.true_div 1 1000000

  -- `counts / counts.sum() + _EPSILON`
  abbrev pub proportions : List ℕ → List f.Real
  proportions counts =
      let total = n.sum (map f.of_nat counts) in
      map (λ (k : ℕ). f.add (n.div (f.of_nat k) total) epsilon) counts

  abbrev pub psi_terms : List f.Real → List f.Real → List f.Real
  psi_terms (r ∷ rs) (c ∷ cs) = f.mul (f.sub c r) (n.log (n.div c r)) ∷ psi_terms rs cs
  psi_terms _ _ = []

  -- `psi`, for counts of as many bins.
  unfoldable pub psi : List ℕ → List ℕ → f.Real
  psi reference_counts current_counts =
      if f.le (n.sum (map f.of_nat reference_counts)) (f.of_nat 0)
        || f.le (n.sum (map f.of_nat current_counts)) (f.of_nat 0)
      then n.infinity
      else n.sum (psi_terms (proportions reference_counts) (proportions current_counts))

  abbrev pub feature_value : String → Observation f → f.Real
  feature_value column o = get_or (lookup column o.features) (f.of_nat 0)

  abbrev pub misses : String → Observation f → Bool
  misses column o = not (is_some (lookup column o.features))

  -- The loop of `feature_drift`: the index of each column that has a reference, and how many
  -- observations miss such a column.
  abbrev pub drift_columns :
      List String → Dict (ReferenceFeature f) → List (Observation f) → Dict f.Real × ℕ
  drift_columns [] features os = ([], 0)
  drift_columns (column ∷ columns) features os =
      let rest = drift_columns columns features os in
      elim (lookup column features) [
        | none ↦ rest
        | some reference ↦
            let current = n.histogram (map (feature_value column) os) reference.edges in
            ((column, psi reference.counts current) ∷ rest.0, count_if (misses column) os + rest.1)
      ]

  -- `max(values)`: a later value replaces the maximum where it is greater.
  abbrev pub max_from : f.Real → List f.Real → f.Real
  max_from best [] = best
  max_from best (x ∷ xs) = max_from (if f.lt best x then x else best) xs

  abbrev pub max_of : List f.Real → f.Real
  max_of [] = f.of_nat 0
  max_of (x ∷ xs) = max_from x xs

  -- `drift_report`, for columns of different names.
  unfoldable pub drift_report :
      Dict (ReferenceFeature f) → List (Observation f) → List String → ℕ → f.Real → DriftReport f
  unfolding psi
  drift_report features os columns min_window psi_threshold =
      if ltb (length os) min_window
      then record {
        verdict = DriftVerdict.insufficient_data;
        feature_psi = [];
        max_psi = none;
        window_size = length os;
        missing_rate = f.of_nat 0;
      }
      else (let found = drift_columns columns features os in
          let max_psi = max_of (values found.0) in
          record {
            verdict =
                if f.le psi_threshold max_psi then DriftVerdict.drift else DriftVerdict.stable;
            feature_psi = found.0;
            max_psi = some max_psi;
            window_size = length os;
            missing_rate = f.true_div found.1 (max (length os * length columns) 1);
          })
