-- ===== src/ModelRegistry/Effect.antt =====
-- What a registration and a rollback do to the versions that are served,
-- ml/registry/model_registry.py.
use veri_pay.Common.{
  Bool-cases, Dict, Option-cases, String, ap, beq_refl, err, if◌then◌else◌, inl, inr, insert,
  list_eq, lookup, lookup-insert_other, lookup-insert_same, nat_eq, none, ok, option_eq, refl, some,
  string_eq, sym, ◌==◌, ◌∙◌, ◌≡◌, ◌⊎◌,
}
use veri_pay.Enums.Dispute.{dispute_reason_eq, dispute_status_eq}
use veri_pay.Enums.Payment.{
  channel_eq, payment_rail_eq, processing_path_eq, verification_outcome_eq,
}
use veri_pay.Enums.Risk.{decision_action_eq, risk_band_eq, risk_tier_eq}
use veri_pay.Enums.Token.{token_status_eq}
use veri_pay.Enums.Trust.{
  device_platform_eq, device_trust_state_eq, gpv_outcome_eq, sca_exemption_eq,
}
use veri_pay.ModelRegistry.{
  Model, ModelVersion, RegisterRequest, RegistryError, all_versions, entry_of, latest, model_or_new,
  register, rollback, set_latest, unknown_model, unknown_version,
}

module _ {M : Type 0} where
  -- After a registration `latest` of that model is the new version, which is returned, and `latest`
  -- of every other model is as before.
  pub register-latest :
      (r : RegisterRequest M) (version_now trained_now : String) (models : Dict (Model M))
      (j : String)
      → latest j (register r version_now trained_now models).1 ≡ (
          if r.model_name == j
          then ok (some (register r version_now trained_now models).0)
          else latest j models)
  unfolding register latest set_latest
  register-latest r version_now trained_now models j =
      let entry = entry_of r version_now trained_now in
      let model = model_or_new (lookup r.model_name models) in
      let next = set_latest entry model in
      elim (Bool-cases (r.model_name == j)) [
        | inl e ↦
            let at_j = lookup-insert_same r.model_name j next models e in
            let at_v =
              lookup-insert_same entry.version entry.version entry model.versions
                (beq_refl entry.version) in
            rw (e, at_j, latest) (rw at_v refl)
        | inr e ↦
            let at_j = lookup-insert_other r.model_name j next models e in rw (e, at_j, latest) refl
      ]

  -- A rollback that returns has returned a version of `all_versions`, `latest` of that model is this
  -- version, `latest` of every other model and the versions of every model are as before; a rollback
  -- that raises changes nothing, and then the version is not one of the model's.
  pub rollback-latest :
      (name to_version : String) (models : Dict (Model M)) (j : String)
      → ((e : ModelVersion M) × ((rollback name to_version models).0 ≡ ok e)
          × (lookup to_version (all_versions name models) ≡ some e)
          × (latest j (rollback name to_version models).1
              ≡ (if name == j then ok (some e) else latest j models))
          × (all_versions j (rollback name to_version models).1 ≡ all_versions j models))
        ⊎ ((x : RegistryError) × (rollback name to_version models ≡ (err x, models))
            × (lookup to_version (all_versions name models) ≡ none))
  unfolding rollback all_versions latest lookup
  rollback-latest name to_version models j = elim (Option-cases (lookup name models)) [
    | inl e ↦ inr (unknown_model name, rw (e, rollback) refl, rw (e, all_versions) refl)
    | inr (m, e) ↦ elim (Option-cases (lookup to_version m.versions)) [
      | inl n ↦ inr (
        unknown_version to_version name,
        rw (e, rollback) (rw (n, rollback) refl),
        rw (e, all_versions) n,
      )
      | inr (v, n) ↦
          let moved = record m { latest_version = some to_version } in
          let done : rollback name to_version models ≡ (ok v, insert name moved models) =
            rw (e, rollback) (rw (n, rollback) refl) in
          inl (
            v,
            ap (λ o. o.0) done,
            rw (e, all_versions) n,
            elim (Bool-cases (name == j)) [
              | inl same ↦
                  let at_j = lookup-insert_same name j moved models same in
                  rw (done, same, at_j, latest) (rw n refl)
              | inr other ↦
                  let at_j = lookup-insert_other name j moved models other in
                  rw (done, other, at_j, latest) refl
            ],
            elim (Bool-cases (name == j)) [
              | inl same ↦
                  let at_j = lookup-insert_same name j moved models same in
                  let before : lookup j models ≡ some m =
                    ap (λ i. lookup i models) (sym ((string_eq.beq_iff name j).0 same)) ∙ e in
                  rw (done, at_j, before, all_versions) refl
              | inr other ↦
                  let at_j = lookup-insert_other name j moved models other in
                  rw (done, at_j, all_versions) refl
            ],
          )
    ]
  ]
