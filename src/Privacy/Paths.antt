-- ===== src/Privacy/Paths.antt =====
-- What the redactor of libs/veripay_common/veripay_common/privacy.py does, said by the positions of
-- a payload: which are reported, and what stands at each of them afterwards.
use veri_pay.Common.{
  Bool, List, Option, String, [], any, false, if◌then◌else◌, list_eq, map, nat_eq, none, option_eq,
  some, string_eq, suc, true, zero, ℕ, ◌++◌, ◌==◌, ◌∷◌,
}
use veri_pay.Enums.Dispute.{dispute_reason_eq, dispute_status_eq}
use veri_pay.Enums.Payment.{
  channel_eq, payment_rail_eq, processing_path_eq, verification_outcome_eq,
}
use veri_pay.Enums.Risk.{decision_action_eq, risk_band_eq, risk_tier_eq}
use veri_pay.Enums.Token.{token_status_eq}
use veri_pay.Enums.Trust.{
  device_platform_eq, device_trust_state_eq, gpv_outcome_eq, sca_exemption_eq,
}
use veri_pay.Privacy.{
  Fields, Items, Json, Redactor, array, child_path, field, index_path, item, mapping, no_fields,
  no_items, scalar,
}

-- One step into a payload, and what stands there.
pub data Step : Type 0 where
  at_key : String → Step
  at_index : ℕ → Step

module _ {R : Type 0} where
  abbrev pub find_field : String → Fields R → Option (Json R)
  find_field k no_fields = none
  find_field k (field j v fs) = if j == k then some v else find_field k fs

  abbrev pub nth_item : ℕ → Items R → Option (Json R)
  nth_item n no_items = none
  nth_item zero (item v xs) = some v
  nth_item (suc n) (item v xs) = nth_item n xs

  abbrev pub follow : Step → Json R → Option (Json R)
  follow (at_key k) (mapping fs) = find_field k fs
  follow (at_index n) (array xs) = nth_item n xs
  follow _ _ = none

  abbrev pub then_at : Option (Json R) → (Json R → Option (Json R)) → Option (Json R)
  then_at none f = none
  then_at (some w) f = f w

  -- What stands at a position.
  abbrev pub at_path : List Step → Json R → Option (Json R)
  at_path [] v = some v
  at_path (s ∷ p) v = then_at (follow s v) (at_path p)

  abbrev pub map_value : (Json R → Json R) → Option (Json R) → Option (Json R)
  map_value f none = none
  map_value f (some v) = some (f v)

  -- The positions of the keys of a value, in the order of the walk.
  unfoldable mutual
    pub positions : Json R → List (List Step)
    positions (scalar s) = []
    positions (array xs) = item_positions 0 xs
    positions (mapping fs) = field_positions fs

    pub item_positions : ℕ → Items R → List (List Step)
    item_positions n no_items = []
    item_positions n (item v xs) =
        map (λ p. at_index n ∷ p) (positions v) ++ item_positions (suc n) xs

    pub field_positions : Fields R → List (List Step)
    field_positions no_fields = []
    field_positions (field k v fs) =
        (at_key k ∷ []) ∷ (map (λ p. at_key k ∷ p) (positions v) ++ field_positions fs)

abbrev pub no_step : List Step → Bool
no_step [] = true
no_step (t ∷ q) = false

module _ {R : Type 0} (r : Redactor R) where
  abbrev pub step_sensitive : Step → Bool
  step_sensitive (at_key k) = r.is_sensitive k
  step_sensitive (at_index n) = false

  -- The path's text.
  abbrev pub render_step : String → Step → String
  render_step path (at_key k) = child_path r path k
  render_step path (at_index n) = index_path r path n

  abbrev pub render : String → List Step → String
  render path [] = path
  render path (s ∷ p) = render (render_step path s) p

  -- The last step, and no earlier one, is a sensitive key.
  abbrev pub first_sensitive : List Step → Bool
  first_sensitive [] = false
  first_sensitive (s ∷ p) = if step_sensitive s then no_step p else first_sensitive p

  -- Some step is a sensitive key.
  abbrev pub any_sensitive : List Step → Bool
  any_sensitive = any step_sensitive
