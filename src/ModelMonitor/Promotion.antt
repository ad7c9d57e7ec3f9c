-- ===== src/ModelMonitor/Promotion.antt =====
-- services/model_monitor/veripay_model_monitor/service.py: the gated promotion of a retrained model.
-- The registry file is the state of the registry's model, and a directory is a dictionary from file
-- names to contents; the training run is a parameter.
use veri_pay.Common.{
  Bool, Dict, List, Option, Result, String, [], err, get_or, if◌then◌else◌, insert, length, lookup,
  ltb, none, not, ok, or_else, some, text_append, true, ℕ, ◌>>=◌, ◌∷◌,
}
use veri_pay.DecisionEngine.Float.{Float}
use veri_pay.ModelMonitor.{Observation, collect_labeled}
use veri_pay.ModelRegistry.{Model, ModelVersion}

-- `RetrainResult`, with the files that the training run left in the scratch directory.
pub record RetrainResult (f : Float) : Type 0 where
  pub version : String
  pub metrics : Dict f.Real
  pub scratch : Dict String
  pub dataset_path : String

pub record PromoteOutcome (f : Float) : Type 0 where
  pub gate_passed : Bool
  pub version : String
  pub metrics : Dict f.Real
  pub latest_metrics : Option (Dict f.Real)
  pub reason : String

-- The registry file and the directory of the served model.
pub record World (f : Float) : Type 0 where
  pub registry : Dict (Model f.Real)
  pub latest_dir : Dict String

-- `FileNotFoundError` or `JSONDecodeError` of the sidecar, an error of the training run.
pub data PromoteError : Type 0 where
  missing_sidecar invalid_sidecar training_failed : PromoteError

-- What the promotion calls: the text of a metric with four digits and of a float, the path of a file
-- of the directory, the clock, the fingerprint of the dataset, and the sidecar's JSON with its
-- reference profile set (none where it is no JSON).
pub record Platform (f : Float) : Type 0 where
  pub fixed : f.Real → String
  pub show : f.Real → String
  pub path_of : String → String
  pub now : String
  pub fingerprint : String → String
  pub set_reference : String → String → Option String

-- `shutil.copyfile` of each named file that is there.
abbrev pub copy_files : List String → Dict String → Dict String → Dict String
copy_files [] scratch files = files
copy_files (name ∷ names) scratch files = elim (lookup name scratch) [
  | none ↦ copy_files names scratch files
  | some content ↦ copy_files names scratch (insert name content files)
]

abbrev pub artifact_names : List String
artifact_names = "model.joblib" ∷ "model.json" ∷ "reference_profile.json" ∷ []

abbrev pub latest_registered : {M : Type 0} → Option (Model M) → Option (ModelVersion M)
latest_registered none = none
latest_registered (some m) = elim m.latest_version [
  | none ↦ none
  | some version ↦ lookup version m.versions
]

-- `_latest_registry_entry`; a file that is not there is the empty registry.
unfoldable pub latest_registry_entry :
    {M : Type 0} → Dict (Model M) → String → Option (ModelVersion M)
latest_registry_entry models name = latest_registered (lookup name models)

-- `payload["models"].setdefault(model_name, {"latest": None, "versions": {}})` of the monitor
abbrev pub model_of_payload : {M : Type 0} → Option (Model M) → Model M
model_of_payload none = record { latest_version = none; versions = [] }
model_of_payload (some model) = model

-- `_register_version`
unfoldable pub register_version :
    {M : Type 0} → Dict (Model M) → String → ModelVersion M → Dict (Model M)
register_version models name entry =
    let model = model_of_payload (lookup name models) in
    let versions = insert entry.version entry model.versions in
    insert name (record { latest_version = some entry.version; versions = versions }) models

abbrev pub metrics_of : {M : Type 0} → Option (ModelVersion M) → Option (Dict M)
metrics_of none = none
metrics_of (some entry) = some entry.metrics

-- The metrics of the champion that the code compares: an empty dictionary is falsy.
abbrev pub compared : {M : Type 0} → Option (Dict M) → Dict M
compared none = []
compared (some d) = d

module _ (f : Float) (p : Platform f) where
  abbrev pub gate_reason : String → f.Real → f.Real → f.Real → String
  gate_reason name new_value champion tolerance = text_append name (
      text_append " " (
        text_append (p.fixed new_value) (
          text_append " vs champion " (
            text_append (p.fixed champion)
              (text_append " (tolerance " (text_append (p.show tolerance) ")"))))))

  -- `new >= champion - tolerance` with its reason, where both have the metric.
  abbrev pub metric_gate : String → Option f.Real → Option f.Real → f.Real → Option (Bool × String)
  metric_gate name (some champion) (some new_value) tolerance =
      some
        (f.le (f.sub champion tolerance) new_value, gate_reason name new_value champion tolerance)
  metric_gate name _ _ tolerance = none

  abbrev pub first_version : Bool × String
  first_version = (true, "first version (no champion to compare)")

  -- `gate_passed` and `reason`.
  unfoldable pub gate : Option (Dict f.Real) → Dict f.Real → f.Real → Bool × String
  gate latest_metrics new_metrics tolerance =
      let champion = compared latest_metrics in
      get_or
        (or_else
          (metric_gate "roc_auc" (lookup "roc_auc" champion) (lookup "roc_auc" new_metrics)
            tolerance)
          (metric_gate "pr_auc" (lookup "pr_auc" champion) (lookup "pr_auc" new_metrics) tolerance))
        first_version

  abbrev pub outcome_of : RetrainResult f → Option (Dict f.Real) → Bool × String → PromoteOutcome f
  outcome_of result latest_metrics verdict = record {
    gate_passed = verdict.0;
    version = result.version;
    metrics = result.metrics;
    latest_metrics = latest_metrics;
    reason = verdict.1;
  }

  -- The entry that a promotion registers.
  abbrev pub promoted_entry : RetrainResult f → ModelVersion f.Real
  promoted_entry result = record {
    version = result.version;
    trained_at = p.now;
    artifact_path = some (p.path_of "model.joblib");
    metrics = result.metrics;
    dataset_path = some result.dataset_path;
    dataset_fingerprint = some (p.fingerprint result.dataset_path);
    reference_profile = some (p.path_of "reference_profile.json");
  }

  -- From the sidecar on: it is read, changed and written, then the version is registered. The copies
  -- are there even where the sidecar cannot be read.
  abbrev pub finish :
      RetrainResult f
      → String
      → PromoteOutcome f
      → Dict (Model f.Real)
      → Dict String
      → Option String
      → Result PromoteError (PromoteOutcome f) × World f
  finish result name outcome models files none =
      (err missing_sidecar, record { registry = models; latest_dir = files })
  finish result name outcome models files (some sidecar) =
      elim (p.set_reference sidecar (p.path_of "reference_profile.json")) [
        | none ↦ (err invalid_sidecar, record { registry = models; latest_dir = files })
        | some written ↦ (
          ok outcome,
          record {
            registry = register_version models name (promoted_entry result);
            latest_dir = insert "model.json" written files;
          },
        )
      ]

  unfoldable pub promote_if_better :
      RetrainResult f → String → f.Real → World f → Result PromoteError (PromoteOutcome f) × World f
  unfolding gate latest_registry_entry register_version
  promote_if_better result name tolerance w =
      let latest_metrics = metrics_of (latest_registry_entry w.registry name) in
      let verdict = gate latest_metrics result.metrics tolerance in
      let outcome = outcome_of result latest_metrics verdict in
      let files = copy_files artifact_names result.scratch w.latest_dir in
      if not verdict.0
      then (ok outcome, w)
      else finish result name outcome w.registry files (lookup "model.json" files)

  -- What `retrain_and_promote` returns: not triggered with the number of labels, or the outcome with
  -- it.
  pub data RetrainReport : Type 0 where
    not_triggered : ℕ → RetrainReport
    triggered : PromoteOutcome f → ℕ → RetrainReport

  -- `retrain_and_promote`, with the retrainer as a function of the labelled observations (none where
  -- it raises).
  unfoldable pub retrain_and_promote :
      List (Observation f)
      → Dict String
      → (List (Observation f × ℕ) → Option (RetrainResult f))
      → String
      → ℕ
      → f.Real
      → World f
      → Result PromoteError RetrainReport × World f
  unfolding promote_if_better collect_labeled
  retrain_and_promote os feedback_labels retrain name min_labels tolerance w =
      let labeled = collect_labeled f os feedback_labels in
      if ltb (length labeled) min_labels
      then (ok (not_triggered (length labeled)), w)
      else elim (retrain labeled) [
        | none ↦ (err training_failed, w)
        | some result ↦
            let promoted = promote_if_better result name tolerance w in
            (promoted.0 >>= λ outcome. ok (triggered outcome (length labeled)), promoted.1)
      ]
