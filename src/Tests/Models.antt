-- ===== src/Tests/Models.antt =====
-- The theorems on the model registry, the model monitor and the graph at concrete inputs.
use veri_pay.Common.{
  All, Bool, List, String, [], contains, false, if◌then◌else◌, inl, insert, length, list_eq, lookup,
  min, nat_beq, nat_eq, none, ok, option_eq, refl, some, string_eq, true, ℕ, ◌-◌, ◌<◌, ◌∷◌, ◌≡◌,
  ◌⊎◌,
}
use veri_pay.Enums.Dispute.{dispute_reason_eq, dispute_status_eq}
use veri_pay.Enums.Payment.{
  channel_eq, payment_rail_eq, processing_path_eq, verification_outcome_eq,
}
use veri_pay.Enums.Risk.{decision_action_eq, risk_band_eq, risk_tier_eq}
use veri_pay.Enums.Token.{token_status_eq}
use veri_pay.Enums.Trust.{
  device_platform_eq, device_trust_state_eq, gpv_outcome_eq, sca_exemption_eq,
}
use veri_pay.GraphStore.{ObservedTransaction, community_from, community_loop, empty_graph}
use veri_pay.GraphStore.Closure.{community_from_complete}
use veri_pay.GraphStore.Community.{Reach, community_from-Reach, here, next}
use veri_pay.GraphStore.Tables.{IsIndexed, observe_all, observe_all-IsIndexed}
use veri_pay.ModelMonitor.{MonitorLabel, Observation}
use veri_pay.ModelMonitor.Gate.{promote-worse}
use veri_pay.ModelMonitor.Promotion.{
  Platform, PromoteOutcome, RetrainResult, World, gate, latest_registry_entry, promote_if_better,
  register_version, retrain_and_promote,
}
use veri_pay.ModelMonitor.Registration.{
  register_version-register, request_of, retrain_and_promote-latest,
}
use veri_pay.ModelMonitor.Window.{add_all, add_all-window, drop}
use veri_pay.ModelRegistry.{ModelVersion, RegisterRequest, all_versions, latest, register}
use veri_pay.ModelRegistry.Pointer.{Call, IsValid, call_register, call_rollback, run, run-latest}
use veri_pay.Tests.Floats.{naturals}

abbrev first_request : RegisterRequest ℕ
first_request = record {
  model_name = "supervised";
  version = some "v1";
  artifact_path = none;
  metrics = some (("roc_auc", 90) ∷ []);
  dataset_path = none;
  dataset_fingerprint = none;
  trained_at = none;
  reference_profile = none;
}

abbrev registry_calls : List (Call ℕ)
registry_calls =
    call_register first_request "now" "now"
    ∷ call_register (record first_request { version = some "v2" }) "now" "now"
    ∷ call_rollback "supervised" "v1"
    ∷ []

run-latest_example :
    (latest "supervised" (run registry_calls []) ≡ ok none)
    ⊎ ((e : ModelVersion ℕ) × (latest "supervised" (run registry_calls []) ≡ ok (some e))
        × (lookup e.version (all_versions "supervised" (run registry_calls [])) ≡ some e))
run-latest_example = run-latest registry_calls "supervised"

abbrev champion_entry : ModelVersion ℕ
champion_entry = record {
  version = "v1";
  trained_at = "now";
  artifact_path = none;
  metrics = ("roc_auc", 90) ∷ [];
  dataset_path = none;
  dataset_fingerprint = none;
  reference_profile = none;
}

abbrev champion_world : World naturals
champion_world = record {
  registry =
      ("supervised", record { latest_version = some "v1"; versions = ("v1", champion_entry) ∷ [] })
      ∷ [];
  latest_dir = [];
}

abbrev challenger : RetrainResult naturals
challenger = record {
  version = "v2";
  metrics = ("roc_auc", 80) ∷ [];
  scratch = ("model.json", "{}") ∷ [];
  dataset_path = "augmented.csv";
}

abbrev platform : Platform naturals
platform = record {
  fixed = λ x. "x";
  show = λ x. "x";
  path_of = λ name. name;
  now = "now";
  fingerprint = λ path. "0";
  set_reference = λ sidecar path. some sidecar;
}

test_served : latest_registry_entry champion_world.registry "supervised" ≡ some champion_entry
unfolding latest_registry_entry lookup
test_served = refl

test_champion : lookup "roc_auc" champion_entry.metrics ≡ some 90
unfolding lookup
test_champion = refl

test_challenger : lookup "roc_auc" challenger.metrics ≡ some 80
unfolding lookup
test_challenger = refl

promote-worse_example :
    (o : PromoteOutcome naturals) × (promote_if_better naturals platform challenger "supervised" 1
        champion_world
      ≡ (ok o, champion_world))
    × (o.gate_passed ≡ false)
promote-worse_example =
    promote-worse naturals platform challenger "supervised" "roc_auc" 1 90 80 champion_world
      champion_entry test_served (inl refl) test_champion test_challenger refl

-- A challenger that is good enough is promoted.
test_promoted :
    (promote_if_better naturals platform
      (record challenger { metrics = ("roc_auc", 89) ∷ [] })
      "supervised"
      1
      champion_world).1.latest_dir
    ≡ ("model.json", "{}") ∷ []
unfolding promote_if_better gate latest_registry_entry register_version lookup insert
test_promoted = refl

register_version-register_example :
    register_version champion_world.registry "supervised" champion_entry
    ≡ (register (request_of "supervised" champion_entry) "a" "b" champion_world.registry).1
register_version-register_example =
    register_version-register champion_world.registry "supervised" champion_entry "a" "b" refl refl

observation : String → Observation naturals
observation id = record {
  transaction_id = id;
  features = [];
  score = 0;
  label = some MonitorLabel.legitimate;
  observed_at = none;
}

abbrev observations : List (Observation naturals)
observations = observation "a" ∷ observation "b" ∷ observation "c" ∷ []

add_all-window_example :
    (add_all naturals 2 observations [] ≡ drop naturals (length observations - 2) observations)
    × (length (add_all naturals 2 observations []) ≡ min 2 (length observations))
add_all-window_example = add_all-window naturals 2 observations

test_registry : IsValid champion_world.registry
unfolding lookup
test_registry = (((refl, tt), (champion_entry, refl)), tt)

retrain_and_promote-latest_example :
    let models =
      (retrain_and_promote naturals platform observations []
        (λ rows. some challenger)
        "supervised"
        3
        1
        champion_world).1.registry in
    IsValid models
    × ((latest "supervised" models ≡ ok none)
        ⊎ ((e : ModelVersion ℕ) × (latest "supervised" models ≡ ok (some e))
            × (lookup e.version (all_versions "supervised" models) ≡ some e)))
retrain_and_promote-latest_example =
    retrain_and_promote-latest naturals platform observations [] (λ rows. some challenger)
      "supervised" 3 1 champion_world "supervised" test_registry

tx : String → ℕ → String → Bool → ObservedTransaction naturals
tx id customer merchant flagged = record {
  transaction_id = id;
  cc_num = customer;
  merchant = merchant;
  amount = 1;
  timestamp = 0;
  flagged = flagged;
}

abbrev ring : List (ObservedTransaction naturals)
ring = tx "1" 1 "m" false ∷ tx "2" 2 "m" true ∷ tx "3" 2 "n" false ∷ tx "4" 3 "n" false ∷ []

observe_all-IsIndexed_example :
    IsIndexed naturals (observe_all naturals ring (empty_graph naturals))
observe_all-IsIndexed_example = observe_all-IsIndexed naturals ring

-- Customers 1, 2 and 3 in a chain.
abbrev chain_peers : ℕ → List ℕ
chain_peers n =
    if nat_beq n 1
    then 1 ∷ 2 ∷ []
    else if nat_beq n 2
    then 1 ∷ 2 ∷ 3 ∷ []
    else if nat_beq n 3
    then 2 ∷ 3 ∷ []
    else []

community_from-Reach_example :
    (members : List ℕ) × (community_from chain_peers 1 ≡ some members)
    × All (Reach chain_peers 1) members
community_from-Reach_example = community_from-Reach chain_peers 1

test_chain : community_from chain_peers 1 ≡ some (3 ∷ 2 ∷ 1 ∷ [])
unfolding community_from community_loop
test_chain = refl

community_from_complete_example : (contains {A = ℕ} 3 (3 ∷ 2 ∷ 1 ∷ []) ≡ true) ⊎ (500 < 3)
community_from_complete_example =
    community_from_complete chain_peers 1 3 (3 ∷ 2 ∷ 1 ∷ []) (next 2 3 (next 1 2 here refl) refl)
      test_chain
