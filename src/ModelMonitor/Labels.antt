-- ===== src/ModelMonitor/Labels.antt =====
-- The labels that services/model_monitor/veripay_model_monitor/service.py joins onto observations.
use veri_pay.Common.{
  All, Bool, Bool-cases, Dict, List, Option, Option-cases, String, [], ap, arith, count_if, false,
  if◌then◌else◌, inl, inr, list_eq, lookup, lookup-insert_other, lookup-insert_same, nat_eq, none,
  option_eq, or_else, refl, some, string_eq, sym, ℕ, ◌&&◌, ◌+◌, ◌==◌, ◌∙◌, ◌∷◌, ◌≡◌, ◌⊎◌,
}
use veri_pay.DecisionEngine.Float.{Float}
use veri_pay.Enums.Dispute.{dispute_reason_eq, dispute_status_eq}
use veri_pay.Enums.Payment.{
  channel_eq, payment_rail_eq, processing_path_eq, verification_outcome_eq,
}
use veri_pay.Enums.Risk.{decision_action_eq, risk_band_eq, risk_tier_eq}
use veri_pay.Enums.Token.{token_status_eq}
use veri_pay.Enums.Trust.{
  device_platform_eq, device_trust_state_eq, gpv_outcome_eq, sca_exemption_eq,
}
use veri_pay.ModelMonitor.{
  ExportedLabel, Observation, collect_labeled, flag_of, keep_label, keep_labels, known_label,
  label_text, label_to_flag, labeled_transactions,
}

-- The last label of a transaction in the export that is one of the monitor's.
abbrev pub last_known : String → List ExportedLabel → Option String
last_known id [] = none
last_known id (r ∷ rs) = or_else (last_known id rs) (elim r.label [
  | none ↦ none
  | some label ↦ if known_label label && r.transaction_id == id then some label else none
])

or_else_assoc : (a b d : Option String) → or_else (or_else a b) d ≡ or_else a (or_else b d)
or_else_assoc a b d = ground arith

keep_label-lookup :
    (id : String) (r : ExportedLabel) (result : Dict String)
    → lookup id (keep_label r result)
      ≡ or_else
          (elim r.label [
            | none ↦ none
            | some label ↦ if known_label label && r.transaction_id == id then some label else none
          ])
          (lookup id result)
keep_label-lookup id r result = elim (Option-cases r.label) [
  | inl e ↦ rw e refl
  | inr (label, e) ↦ rw e (elim (Bool-cases (known_label label)) [
    | inl k ↦ rw k (elim (Bool-cases (r.transaction_id == id)) [
      | inl s ↦ rw s (lookup-insert_same r.transaction_id id label result s)
      | inr s ↦ rw s (lookup-insert_other r.transaction_id id label result s)
    ])
    | inr k ↦ rw k refl
  ])
]

keep_labels-lookup :
    (id : String) (rs : List ExportedLabel) (result : Dict String)
    → lookup id (keep_labels rs result) ≡ or_else (last_known id rs) (lookup id result)
keep_labels-lookup id [] result = refl
keep_labels-lookup id (r ∷ rs) result =
    keep_labels-lookup id rs (keep_label r result)
    ∙ ap (or_else (last_known id rs)) (keep_label-lookup id r result)
    ∙ sym (or_else_assoc (last_known id rs) _ (lookup id result))

-- The label of a transaction is the last one of the export that the monitor knows; a later unknown
-- or missing label does not hide it.
pub labeled_transactions_lem :
    (id : String) (rs : List ExportedLabel)
    → lookup id (labeled_transactions (some rs)) ≡ last_known id rs
unfolding labeled_transactions lookup
labeled_transactions_lem id rs = keep_labels-lookup id rs [] ∙ last (last_known id rs)
  where
    last : (o : Option String) → or_else o none ≡ o
    last none = refl
    last (some a) = refl

module _ (f : Float) where
  abbrev pub is_about : String → Observation f → Bool
  is_about id o = o.transaction_id == id

  abbrev pub row_about : String → Observation f × ℕ → Bool
  row_about id row = is_about id row.0

  -- Where the analysts' last known label of a transaction gives a flag, every observation of this
  -- transaction, whatever its own label, is collected, and every row of it carries that flag.
  pub collect_labeled-flag :
      (rs : List ExportedLabel) (id label : String) (flag : ℕ) (os : List (Observation f))
      → last_known id rs ≡ some label
      → label_to_flag (some label) ≡ some flag
      → All
          (λ row. (row_about id row ≡ false) ⊎ (row.1 ≡ flag))
          (collect_labeled f os (labeled_transactions (some rs)))
        × (count_if (row_about id) (collect_labeled f os (labeled_transactions (some rs)))
            ≡ count_if (is_about id) os)
  unfolding collect_labeled
  collect_labeled-flag rs id label flag [] h g = (tt, refl)
  collect_labeled-flag rs id label flag (o ∷ os) h g =
      let labels = labeled_transactions (some rs) in
      let (rows, counts) = collect_labeled-flag rs id label flag os h g in
      elim (Bool-cases (is_about id o)) [
        | inl same ↦
            let found : lookup o.transaction_id labels ≡ some label =
              ap (λ i. lookup i labels) ((string_eq.beq_iff o.transaction_id id).0 same)
              ∙ labeled_transactions_lem id rs
              ∙ h in
            let flagged : flag_of f labels o ≡ some flag =
              ap (λ a. or_else (label_to_flag a) (label_to_flag (label_text o.label))) found
              ∙ ap (λ a. or_else a (label_to_flag (label_text o.label))) g in
            rw (flagged, collect_labeled)
              ((inr refl, rows), ap (λ k. (if is_about id o then 1 else 0) + k) counts)
        | inr other ↦ elim (Option-cases (flag_of f labels o)) [
          | inl e ↦ rw (e, other, collect_labeled) (rows, omega (arith, counts))
          | inr (k, e) ↦
              rw (e, collect_labeled)
                ((inl other, rows), ap (λ m. (if is_about id o then 1 else 0) + m) counts)
        ]
      ]
