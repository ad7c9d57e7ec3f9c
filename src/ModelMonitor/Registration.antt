-- ===== src/ModelMonitor/Registration.antt =====
-- The monitor of services/model_monitor/veripay_model_monitor/service.py as a client of the model
-- registry ml/registry/model_registry.py: both write one file.
use veri_pay.Common.{
  All-insert, Bool-cases, Dict, List, Option, Option-cases, String, false, inl, inr, insert, length,
  list_eq, lookup, ltb, nat_eq, none, ok, option_eq, refl, some, string_eq, ℕ, ◌==◌, ◌≡◌, ◌⊎◌,
}
use veri_pay.DecisionEngine.Float.{Float}
use veri_pay.Enums.Dispute.{dispute_reason_eq, dispute_status_eq}
use veri_pay.Enums.Payment.{
  channel_eq, payment_rail_eq, processing_path_eq, verification_outcome_eq,
}
use veri_pay.Enums.Risk.{decision_action_eq, risk_band_eq, risk_tier_eq}
use veri_pay.Enums.Token.{token_status_eq}
use veri_pay.Enums.Trust.{
  device_platform_eq, device_trust_state_eq, gpv_outcome_eq, sca_exemption_eq,
}
use veri_pay.ModelMonitor.{Observation, collect_labeled}
use veri_pay.ModelMonitor.Gate.{promote-registry}
use veri_pay.ModelMonitor.Promotion.{
  Platform, RetrainResult, World, promote_if_better, promoted_entry, register_version,
  retrain_and_promote,
}
use veri_pay.ModelRegistry.{
  Model, ModelVersion, RegisterRequest, all_versions, entry_of, latest, model_or_new, register,
  set_latest,
}
use veri_pay.ModelRegistry.Pointer.{
  IsModel, IsValid, latest-IsValid, model_or_new-IsModel, set_latest-IsModel,
}

module _ {M : Type 0} where
  -- The registration that the registry's own `register` would be asked for.
  abbrev pub request_of : String → ModelVersion M → RegisterRequest M
  request_of name entry = record {
    model_name = name;
    version = some entry.version;
    artifact_path = entry.artifact_path;
    metrics = some entry.metrics;
    dataset_path = entry.dataset_path;
    dataset_fingerprint = entry.dataset_fingerprint;
    trained_at = some entry.trained_at;
    reference_profile = entry.reference_profile;
  }

  -- The monitor's `_register_version` writes what the registry's `register` writes for the same
  -- entry, whatever the clock, where the entry's version and time are not empty.
  pub register_version-register :
      (models : Dict (Model M)) (name : String) (entry : ModelVersion M)
      (version_now trained_now : String)
      → (entry.version == "") ≡ false
      → (entry.trained_at == "") ≡ false
      → register_version models name entry
        ≡ (register (request_of name entry) version_now trained_now models).1
  unfolding register_version register entry_of set_latest
  register_version-register models name entry version_now trained_now h g =
      elim (Option-cases (lookup name models)) [
        | inl e ↦ rw (e, h, g) refl
        | inr (model, e) ↦ rw (e, h, g) refl
      ]

  -- The write of the monitor is the pair of writes of the registry.
  register_version-set_latest :
      (models : Dict (Model M)) (name : String) (entry : ModelVersion M)
      → register_version models name entry
        ≡ insert name (set_latest entry (model_or_new (lookup name models))) models
  unfolding register_version set_latest
  register_version-set_latest models name entry = elim (Option-cases (lookup name models)) [
    | inl e ↦ rw e refl
    | inr (model, e) ↦ rw e refl
  ]

  register_version-IsValid :
      (models : Dict (Model M)) (name : String) (entry : ModelVersion M)
      → IsValid models
      → IsValid (register_version models name entry)
  register_version-IsValid models name entry v =
      let model = model_or_new (lookup name models) in
      rw (register_version-set_latest models name entry) (
        All-insert IsModel name (set_latest entry model) models
          (set_latest-IsModel name entry model (model_or_new-IsModel name models v)) v)

module _ (f : Float) (p : Platform f) where
  promote-IsValid :
      (result : RetrainResult f) (name : String) (tolerance : f.Real) (w : World f)
      → IsValid w.registry
      → IsValid (promote_if_better f p result name tolerance w).1.registry
  promote-IsValid result name tolerance w v = elim (promote-registry f p result name tolerance w) [
    | inl (o, fine, passed, changed) ↦
        rw changed (register_version-IsValid w.registry name (promoted_entry f p result) v)
    | inr (inl (o, kept, refused)) ↦ rw kept v
    | inr (inr (x, broken, same)) ↦ rw same v
  ]

  retrain_and_promote-IsValid :
      (os : List (Observation f)) (labels : Dict String)
      (retrain : List (Observation f × ℕ) → Option (RetrainResult f)) (name : String)
      (min_labels : ℕ) (tolerance : f.Real) (w : World f)
      → IsValid w.registry
      → IsValid (retrain_and_promote f p os labels retrain name min_labels tolerance w).1.registry
  unfolding retrain_and_promote
  retrain_and_promote-IsValid os labels retrain name min_labels tolerance w v =
      let labeled = collect_labeled f os labels in
      elim (Bool-cases (ltb (length labeled) min_labels)) [
        | inl few ↦ rw (few, retrain_and_promote) v
        | inr many ↦ elim (Option-cases (retrain labeled)) [
          | inl e ↦ rw (many, retrain_and_promote) (rw (e, retrain_and_promote) v)
          | inr (result, e) ↦
              rw (many, retrain_and_promote)
                (rw (e, retrain_and_promote) (promote-IsValid result name tolerance w v))
        ]
      ]

  -- A retraining, triggered or not, that passes the gate or not, or that fails, keeps a valid registry
  -- valid; so `latest` of the registry does not raise for any model afterwards: it returns none or a
  -- version of `all_versions`.
  pub retrain_and_promote-latest :
      (os : List (Observation f)) (labels : Dict String)
      (retrain : List (Observation f × ℕ) → Option (RetrainResult f)) (name : String)
      (min_labels : ℕ) (tolerance : f.Real) (w : World f) (j : String)
      → IsValid w.registry
      → let models =
          (retrain_and_promote f p os labels retrain name min_labels tolerance w).1.registry in
        IsValid models
        × ((latest j models ≡ ok none)
            ⊎ ((e : ModelVersion f.Real) × (latest j models ≡ ok (some e))
                × (lookup e.version (all_versions j models) ≡ some e)))
  retrain_and_promote-latest os labels retrain name min_labels tolerance w j v =
      let valid = retrain_and_promote-IsValid os labels retrain name min_labels tolerance w v in
      (
        valid,
        latest-IsValid j
            (retrain_and_promote f p os labels retrain name min_labels tolerance w).1.registry
            valid,
      )
