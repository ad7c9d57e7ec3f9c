-- ===== src/ModelMonitor/Gate.antt =====
-- What the gate of services/model_monitor/veripay_model_monitor/service.py lets into the registry.
use veri_pay.Common.{
  Bool, Bool-cases, Dict, Option, Option-cases, String, ap, err, false, if◌then◌else◌, inl, inr,
  lookup, none, not, ok, refl, some, true, ◌∙◌, ◌≡◌, ◌⊎◌,
}
use veri_pay.DecisionEngine.Float.{Float}
use veri_pay.ModelMonitor.Promotion.{
  Platform, PromoteError, PromoteOutcome, RetrainResult, World, artifact_names, copy_files, finish,
  gate, invalid_sidecar, latest_registry_entry, metric_gate, metrics_of, missing_sidecar,
  outcome_of, promote_if_better, promoted_entry, register_version,
}
use veri_pay.ModelRegistry.{Model, ModelVersion}

module _ (f : Float) (p : Platform f) where
  metric_gate-missing :
      (name : String) (a b : Option f.Real) (tolerance : f.Real)
      → (a ≡ none) ⊎ (b ≡ none)
      → metric_gate f p name a b tolerance ≡ none
  metric_gate-missing name none b tolerance h = refl
  metric_gate-missing name (some x) none tolerance h = refl
  metric_gate-missing name (some x) (some y) tolerance (inl h) = cc
  metric_gate-missing name (some x) (some y) tolerance (inr h) = cc

  gate-roc :
      (old new : Dict f.Real) (tolerance champion new_value : f.Real)
      → lookup "roc_auc" old ≡ some champion
      → lookup "roc_auc" new ≡ some new_value
      → (gate f p (some old) new tolerance).0 ≡ f.le (f.sub champion tolerance) new_value
  unfolding gate
  gate-roc old new tolerance champion new_value h g = rw (h, g, gate) refl

  gate-pr :
      (old new : Dict f.Real) (tolerance champion new_value : f.Real)
      → (lookup "roc_auc" old ≡ none) ⊎ (lookup "roc_auc" new ≡ none)
      → lookup "pr_auc" old ≡ some champion
      → lookup "pr_auc" new ≡ some new_value
      → (gate f p (some old) new tolerance).0 ≡ f.le (f.sub champion tolerance) new_value
  unfolding gate
  gate-pr old new tolerance champion new_value missing h g =
      let no_roc =
        metric_gate-missing "roc_auc" (lookup "roc_auc" old) (lookup "roc_auc" new) tolerance
          missing in
      rw (no_roc, h, g, gate) refl

  -- The metric that the gate compares: the ROC-AUC where both versions have one, else the PR-AUC.
  abbrev pub Compares : String → Dict f.Real → Dict f.Real → Type 0
  Compares metric old new =
      (metric ≡ "roc_auc")
      ⊎ ((metric ≡ "pr_auc") × ((lookup "roc_auc" old ≡ none) ⊎ (lookup "roc_auc" new ≡ none)))

  gate-value :
      (metric : String) (old new : Dict f.Real) (tolerance champion new_value : f.Real)
      → Compares metric old new
      → lookup metric old ≡ some champion
      → lookup metric new ≡ some new_value
      → (gate f p (some old) new tolerance).0 ≡ f.le (f.sub champion tolerance) new_value
  gate-value metric old new tolerance champion new_value (inl roc) h g =
      gate-roc old new tolerance champion new_value (rw roc at h) (rw roc at g)
  gate-value metric old new tolerance champion new_value (inr (pr, missing)) h g =
      gate-pr old new tolerance champion new_value missing (rw pr at h) (rw pr at g)

  -- A retrained model whose compared metric (ROC-AUC where the champion and it have one, else PR-AUC)
  -- is below the champion's by more than the tolerance replaces nothing: the registry and the served
  -- files are as before, and the outcome says that the gate is not passed.
  pub promote-worse :
      (result : RetrainResult f) (name metric : String) (tolerance champion new_value : f.Real)
      (w : World f) (served : ModelVersion f.Real)
      → latest_registry_entry w.registry name ≡ some served
      → Compares metric served.metrics result.metrics
      → lookup metric served.metrics ≡ some champion
      → lookup metric result.metrics ≡ some new_value
      → f.le (f.sub champion tolerance) new_value ≡ false
      → (o : PromoteOutcome f) × (promote_if_better f p result name tolerance w ≡ (ok o, w))
        × (o.gate_passed ≡ false)
  unfolding promote_if_better
  promote-worse result name metric tolerance champion new_value w served e which h g low =
      let verdict = gate f p (some served.metrics) result.metrics tolerance in
      let refused : verdict.0 ≡ false =
        gate-value metric served.metrics result.metrics tolerance champion new_value which h g
        ∙ low in
      (
        outcome_of f p result (some served.metrics) verdict,
        rw (e, promote_if_better, refused) refl,
        refused,
      )

  finish-registry :
      (result : RetrainResult f) (name : String) (outcome : PromoteOutcome f)
      (models : Dict (Model f.Real)) (files : Dict String) (o : Option String)
      → let after = finish f p result name outcome models files o in
        ((after.0 ≡ ok outcome)
          × (after.1.registry ≡ register_version models name (promoted_entry f p result)))
        ⊎ ((x : PromoteError) × (after.0 ≡ err x) × (after.1.registry ≡ models))
  finish-registry result name outcome models files none = inr (missing_sidecar, refl, refl)
  finish-registry result name outcome models files (some sidecar) =
      elim (Option-cases (p.set_reference sidecar (p.path_of "reference_profile.json"))) [
        | inl e ↦ inr (invalid_sidecar, rw (e, finish) refl, rw (e, finish) refl)
        | inr (written, e) ↦ inl (rw (e, finish) refl, rw (e, finish) refl)
      ]

  -- Exactly what a promotion does to the registry: either the gate is not passed, or the sidecar cannot
  -- be read, and the registry is as before; or the gate is passed and the new entry is registered.
  pub promote-registry :
      (result : RetrainResult f) (name : String) (tolerance : f.Real) (w : World f)
      → let after = promote_if_better f p result name tolerance w in
        ((o : PromoteOutcome f) × (after.0 ≡ ok o)
          × (o.gate_passed ≡ true)
          × (after.1.registry ≡ register_version w.registry name (promoted_entry f p result)))
        ⊎ ((o : PromoteOutcome f) × (after ≡ (ok o, w)) × (o.gate_passed ≡ false))
        ⊎ ((x : PromoteError) × (after.0 ≡ err x) × (after.1.registry ≡ w.registry))
  unfolding promote_if_better
  promote-registry result name tolerance w =
      let latest_metrics = metrics_of (latest_registry_entry w.registry name) in
      let verdict = gate f p latest_metrics result.metrics tolerance in
      let outcome = outcome_of f p result latest_metrics verdict in
      let files = copy_files artifact_names result.scratch w.latest_dir in
      elim (Bool-cases verdict.0) [
        | inr refused ↦ inr (inl (outcome, rw (refused, promote_if_better) refl, refused))
        | inl passed ↦
            let ended =
              finish f p result name outcome w.registry files (lookup "model.json" files) in
            let whole : promote_if_better f p result name tolerance w ≡ ended =
              ap (λ (b : Bool). if not b then (ok outcome, w) else ended) passed in
            elim (finish-registry result name outcome w.registry files
              (lookup "model.json" files)) [
                | inl (fine, changed) ↦ inl (
                  outcome,
                  ap (λ a. a.0) whole ∙ fine,
                  passed,
                  ap (λ a. a.1.registry) whole ∙ changed,
                )
                | inr (x, broken, same) ↦
                    inr (inr (x, ap (λ a. a.0) whole ∙ broken, ap (λ a. a.1.registry) whole ∙ same))
              ]
      ]
