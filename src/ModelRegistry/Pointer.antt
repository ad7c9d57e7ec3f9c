-- ===== src/ModelRegistry/Pointer.antt =====
-- The pointer `latest` of the model registry, ml/registry/model_registry.py: what the operations
-- make of it, and that it always names a registered version.
use veri_pay.Common.{
  All, All-insert, All-lookup, Dict, List, Option, Option-cases, String, [], beq_refl, err, inl,
  inr, insert, lookup, lookup-insert, none, ok, refl, some, subst, sym, ◌∙◌, ◌∷◌, ◌≡◌, ◌⊎◌,
}
use veri_pay.ModelRegistry.{
  Model, ModelVersion, RegisterRequest, RegistryError, all_versions, entry_of, latest, model_or_new,
  register, rollback, set_latest, unknown_model, unknown_version,
}

-- The calls that change the registry.
pub data Call (M : Type 0) : Type 0 where
  call_register : RegisterRequest M → String → String → Call M
  call_rollback : String → String → Call M

module _ {M : Type 0} where
  -- A version stands under its own name.
  abbrev pub IsVersion : String × ModelVersion M → Type 0
  IsVersion (k, e) = k ≡ e.version

  abbrev pub IsPointer : Option String → Dict (ModelVersion M) → Type 0
  IsPointer none d = Unit
  IsPointer (some v) d = (e : ModelVersion M) × (lookup v d ≡ some e)

  -- Versions stand under their own names, and the pointer is unset or at one of them.
  abbrev pub IsModel : String × Model M → Type 0
  IsModel (k, m) = All IsVersion m.versions × IsPointer m.latest_version m.versions

  abbrev pub IsValid : Dict (Model M) → Type 0
  IsValid = All IsModel

  pub set_latest-IsModel :
      (k : String) (e : ModelVersion M) (m : Model M) → IsModel (k, m) → IsModel (k, set_latest e m)
  unfolding set_latest
  set_latest-IsModel k e m h = (
    All-insert IsVersion e.version e m.versions refl h.0,
    (e, lookup-insert e.version e.version e m.versions ∙ rw (beq_refl e.version) refl),
  )

  pub model_or_new-IsModel :
      (name : String) (models : Dict (Model M))
      → IsValid models
      → IsModel (name, model_or_new (lookup name models))
  model_or_new-IsModel name models v = elim (Option-cases (lookup name models)) [
    | inl e ↦ rw e (tt, tt)
    | inr (m, e) ↦ rw e (All-lookup IsModel name m models v e)
  ]

  pub register-IsValid :
      (r : RegisterRequest M) (version_now trained_now : String) (models : Dict (Model M))
      → IsValid models
      → IsValid (register r version_now trained_now models).1
  unfolding register
  register-IsValid r version_now trained_now models v =
      let entry = entry_of r version_now trained_now in
      let model = model_or_new (lookup r.model_name models) in
      All-insert IsModel r.model_name (set_latest entry model) models
        (set_latest-IsModel r.model_name entry model (model_or_new-IsModel r.model_name models v)) v

  -- What a rollback does, branch by branch: either it fails and changes nothing, or the version was
  -- there and only the pointer of that model moves to it.
  pub rollback-cases :
      (name to_version : String) (models : Dict (Model M))
      → ((x : RegistryError) × (rollback name to_version models ≡ (err x, models)))
        ⊎ ((m : Model M) × (e : ModelVersion M) × (lookup name models ≡ some m)
            × (lookup to_version m.versions ≡ some e)
            × (rollback name to_version models
                ≡ (ok e, insert name (record m { latest_version = some to_version }) models)))
  unfolding rollback
  rollback-cases name to_version models = elim (Option-cases (lookup name models)) [
    | inl e ↦ inl (unknown_model name, rw (e, rollback) refl)
    | inr (m, e) ↦ elim (Option-cases (lookup to_version m.versions)) [
      | inl n ↦ inl (unknown_version to_version name, rw (e, rollback) (rw (n, rollback) refl))
      | inr (v, n) ↦ inr (m, v, e, n, rw (e, rollback) (rw (n, rollback) refl))
    ]
  ]

  pub rollback-IsValid :
      (name to_version : String) (models : Dict (Model M))
      → IsValid models
      → IsValid (rollback name to_version models).1
  rollback-IsValid name to_version models v = elim (rollback-cases name to_version models) [
    | inl (x, e) ↦ rw e v
    | inr (m, entry, found, there, e) ↦ rw e (
        All-insert IsModel name (record m { latest_version = some to_version }) models
          ((All-lookup IsModel name m models v found).0, (entry, there)) v)
  ]

  abbrev pub run_one : Call M → Dict (Model M) → Dict (Model M)
  run_one (call_register r version_now trained_now) models =
      (register r version_now trained_now models).1
  run_one (call_rollback name to_version) models = (rollback name to_version models).1

  unfoldable pub run : List (Call M) → Dict (Model M) → Dict (Model M)
  run [] models = models
  run (c ∷ cs) models = run cs (run_one c models)

  run_one-IsValid :
      (c : Call M) (models : Dict (Model M)) → IsValid models → IsValid (run_one c models)
  run_one-IsValid (call_register r version_now trained_now) models v =
      register-IsValid r version_now trained_now models v
  run_one-IsValid (call_rollback name to_version) models v =
      rollback-IsValid name to_version models v

  pub run-IsValid :
      (cs : List (Call M)) (models : Dict (Model M)) → IsValid models → IsValid (run cs models)
  unfolding run
  run-IsValid [] models v = v
  run-IsValid (c ∷ cs) models v = run-IsValid cs (run_one c models) (run_one-IsValid c models v)

  -- In a valid registry `latest` does not raise: the model has none, or it is one of its versions
  -- and stands under its own name.
  pub latest-IsValid :
      (name : String) (models : Dict (Model M))
      → IsValid models
      → (latest name models ≡ ok none)
        ⊎ ((e : ModelVersion M) × (latest name models ≡ ok (some e))
            × (lookup e.version (all_versions name models) ≡ some e))
  unfolding latest all_versions
  latest-IsValid name models v = elim (Option-cases (lookup name models)) [
    | inl e ↦ inl (rw (e, latest) refl)
    | inr (m, e) ↦
        let (versions, pointer) = All-lookup IsModel name m models v e in
        elim (Option-cases m.latest_version) [
          | inl n ↦ inl (rw (e, latest) (rw (n, latest) refl))
          | inr (k, n) ↦
              let (entry, there) : IsPointer (some k) m.versions =
                subst (λ o. IsPointer o m.versions) n pointer in
              let same : k ≡ entry.version =
                All-lookup IsVersion k entry m.versions versions there in
              inr (
                entry,
                rw (e, latest) (rw (n, latest) (rw (there, latest) refl)),
                rw (e, all_versions) (rw (sym same) there),
              )
        ]
  ]

  -- After any calls of `register` and `rollback` on an empty registry, and for any model, `latest`
  -- does not raise: it returns nothing, or one of the versions that `all_versions` lists, under the
  -- version's own name.
  pub run-latest :
      (cs : List (Call M)) (name : String)
      → (latest name (run cs []) ≡ ok none)
        ⊎ ((e : ModelVersion M) × (latest name (run cs []) ≡ ok (some e))
            × (lookup e.version (all_versions name (run cs [])) ≡ some e))
  run-latest cs name = latest-IsValid name (run cs []) (run-IsValid cs [] tt)
