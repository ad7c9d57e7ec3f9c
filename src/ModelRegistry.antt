-- ===== src/ModelRegistry.antt =====
-- The model registry, ml/registry/model_registry.py. The registry file is the state, as the
-- dictionary of `_load()["models"]`; the metrics of a version are floats of any kind. The file
-- sorts the keys of its dictionaries, and no operation modelled here reads their order.
pub mod Pointer
pub mod Effect
use veri_pay.Common.{
  Dict, Option, Result, String, [], err, if◌then◌else◌, insert, list_eq, lookup, nat_eq, none, ok,
  option_eq, or_raise, some, string_eq, ◌==◌, ◌>>=◌,
}
use veri_pay.Enums.Dispute.{dispute_reason_eq, dispute_status_eq}
use veri_pay.Enums.Payment.{
  channel_eq, payment_rail_eq, processing_path_eq, verification_outcome_eq,
}
use veri_pay.Enums.Risk.{decision_action_eq, risk_band_eq, risk_tier_eq}
use veri_pay.Enums.Token.{token_status_eq}
use veri_pay.Enums.Trust.{
  device_platform_eq, device_trust_state_eq, gpv_outcome_eq, sca_exemption_eq,
}

-- `register(...)`'s arguments.
pub record RegisterRequest (M : Type 0) : Type 0 where
  pub model_name : String
  pub version : Option String
  pub artifact_path : Option String
  pub metrics : Option (Dict M)
  pub dataset_path : Option String
  pub dataset_fingerprint : Option String
  pub trained_at : Option String
  pub reference_profile : Option String

pub record ModelVersion (M : Type 0) : Type 0 where
  pub version : String
  pub trained_at : String
  pub artifact_path : Option String
  pub metrics : Dict M
  pub dataset_path : Option String
  pub dataset_fingerprint : Option String
  pub reference_profile : Option String

-- `{"latest": ..., "versions": ...}`
pub record Model (M : Type 0) : Type 0 where
  pub latest_version : Option String
  pub versions : Dict (ModelVersion M)

-- `KeyError`, by what raises it.
pub data RegistryError : Type 0 where
  unknown_model : String → RegistryError
  unknown_version : String → String → RegistryError
  missing_latest : String → RegistryError

-- `text or default`: an absent and an empty text are falsy.
abbrev pub text_or : Option String → String → String
text_or none d = d
text_or (some s) d = if s == "" then d else s

abbrev pub get_metrics : {M : Type 0} → Option (Dict M) → Dict M
get_metrics none = []
get_metrics (some d) = d

-- `entry`, from the clock readings for a missing version and a missing time.
unfoldable pub entry_of : {M : Type 0} → RegisterRequest M → String → String → ModelVersion M
entry_of r version_now trained_now = record {
  version = text_or r.version version_now;
  trained_at = text_or r.trained_at trained_now;
  artifact_path = r.artifact_path;
  metrics = get_metrics r.metrics;
  dataset_path = r.dataset_path;
  dataset_fingerprint = r.dataset_fingerprint;
  reference_profile = r.reference_profile;
}

-- `payload["models"].setdefault(model_name, {"latest": None, "versions": {}})`
abbrev pub model_or_new : {M : Type 0} → Option (Model M) → Model M
model_or_new none = record { latest_version = none; versions = [] }
model_or_new (some m) = m

-- `model["versions"][version] = entry; model["latest"] = version`
unfoldable pub set_latest : {M : Type 0} → ModelVersion M → Model M → Model M
set_latest entry m = record {
  latest_version = some entry.version;
  versions = insert entry.version entry m.versions;
}

unfoldable pub register :
    {M : Type 0}
    → RegisterRequest M
    → String
    → String
    → Dict (Model M)
    → ModelVersion M × Dict (Model M)
register r version_now trained_now models =
    let entry = entry_of r version_now trained_now in
    let model = model_or_new (lookup r.model_name models) in
    (entry, insert r.model_name (set_latest entry model) models)

-- `model["latest"] = to_version` on a model and a version that are there.
abbrev pub rewind :
    {M : Type 0}
    → String
    → String
    → Dict (Model M)
    → Model M
    → Option (ModelVersion M)
    → Result RegistryError (ModelVersion M) × Dict (Model M)
rewind name to_version models m none = (err (unknown_version to_version name), models)
rewind name to_version models m (some v) =
    (ok v, insert name (record m { latest_version = some to_version }) models)

abbrev pub rollback_found :
    {M : Type 0}
    → String
    → String
    → Dict (Model M)
    → Option (Model M)
    → Result RegistryError (ModelVersion M) × Dict (Model M)
rollback_found name to_version models none = (err (unknown_model name), models)
rollback_found name to_version models (some m) =
    rewind name to_version models m (lookup to_version m.versions)

unfoldable pub rollback :
    {M : Type 0}
    → String
    → String
    → Dict (Model M)
    → Result RegistryError (ModelVersion M) × Dict (Model M)
rollback name to_version models = rollback_found name to_version models (lookup name models)

-- `model["versions"][model["latest"]]`, which raises a KeyError for a version that is not there.
abbrev pub latest_of :
    {M : Type 0} → Option (Model M) → Result RegistryError (Option (ModelVersion M))
latest_of none = ok none
latest_of (some m) = elim m.latest_version [
  | none ↦ ok none
  | some v ↦ or_raise (lookup v m.versions) (missing_latest v) >>= λ entry. ok (some entry)
]

unfoldable pub latest :
    {M : Type 0} → String → Dict (Model M) → Result RegistryError (Option (ModelVersion M))
latest name models = latest_of (lookup name models)

abbrev pub versions_of : {M : Type 0} → Option (Model M) → Dict (ModelVersion M)
versions_of none = []
versions_of (some m) = m.versions

unfoldable pub all_versions : {M : Type 0} → String → Dict (Model M) → Dict (ModelVersion M)
all_versions name models = versions_of (lookup name models)
