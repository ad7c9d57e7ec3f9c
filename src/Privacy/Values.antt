-- ===== src/Privacy/Values.antt =====
-- The payload that the redactor of libs/veripay_common/veripay_common/privacy.py returns: what
-- stands at each position.
use veri_pay.Common.{
  Bool, Bool-cases, List, Option, String, [], ap, ap₂, arith, if◌then◌else◌, inl, inr, list_eq,
  nat_eq, none, option_eq, refl, some, string_eq, suc, sym, true, zero, ℕ, ◌++◌, ◌==◌, ◌∙◌, ◌∷◌,
  ◌≡◌,
}
use veri_pay.Enums.Dispute.{dispute_reason_eq, dispute_status_eq}
use veri_pay.Enums.Payment.{
  channel_eq, payment_rail_eq, processing_path_eq, verification_outcome_eq,
}
use veri_pay.Enums.Risk.{decision_action_eq, risk_band_eq, risk_tier_eq}
use veri_pay.Enums.Token.{token_status_eq}
use veri_pay.Enums.Trust.{
  device_platform_eq, device_trust_state_eq, gpv_outcome_eq, sca_exemption_eq,
}
use veri_pay.Privacy.{
  Fields, Items, Json, Redactor, Scalar, array, child_path, field, index_path, item, mapping,
  no_fields, no_items, scalar, text, tokenize, walk, walk_fields, walk_items,
}
use veri_pay.Privacy.Paths.{
  Step, any_sensitive, at_index, at_key, at_path, find_field, first_sensitive, follow, map_value,
  nth_item, step_sensitive, then_at,
}

module _ {R : Type 0} (r : Redactor R) where
  -- The value that the walk makes of a value; it depends neither on the path nor on the report.
  abbrev pub hidden : Json R → Json R
  hidden v = (walk r v "" []).0

  mutual
    unfolding walk

    walk-hidden :
        (v : Json R) (p q : String) (xs ys : List String) → (walk r v p xs).0 ≡ (walk r v q ys).0
    walk-hidden (scalar x) p q xs ys = refl
    walk-hidden (array vs) p q xs ys = ap array (walk_items-hidden vs p q 0 0 xs ys)
    walk-hidden (mapping fs) p q xs ys = ap mapping (walk_fields-hidden fs p q xs ys)

    walk_items-hidden :
        (vs : Items R) (p q : String) (m n : ℕ) (xs ys : List String)
        → (walk_items r vs p m xs).0 ≡ (walk_items r vs q n ys).0
    walk_items-hidden no_items p q m n xs ys = refl
    walk_items-hidden (item v vs) p q m n xs ys =
        ap₂ item (walk-hidden v (index_path r p m) (index_path r q n) xs ys) (
          walk_items-hidden vs p q (suc m) (suc n) (walk r v (index_path r p m) xs).1
            (walk r v (index_path r q n) ys).1)

    walk_fields-hidden :
        (fs : Fields R) (p q : String) (xs ys : List String)
        → (walk_fields r fs p xs).0 ≡ (walk_fields r fs q ys).0
    walk_fields-hidden no_fields p q xs ys = refl
    walk_fields-hidden (field k v fs) p q xs ys = elim (Bool-cases (r.is_sensitive k)) [
      | inl e ↦ rw e (
          ap (field k (scalar (text (tokenize r v))))
            (walk_fields-hidden fs p q (xs ++ child_path r p k ∷ []) (ys ++ child_path r q k ∷ [])))
      | inr e ↦ rw e (
          ap₂ (field k) (walk-hidden v (child_path r p k) (child_path r q k) xs ys) (
            walk_fields-hidden fs p q (walk r v (child_path r p k) xs).1
              (walk r v (child_path r q k) ys).1))
    ]

  -- The surrogate of a value.
  abbrev pub surrogate : Json R → Json R
  surrogate v = scalar (text (tokenize r v))

  abbrev pub replaced : Bool → Json R → Json R
  replaced secret v = if secret then surrogate v else hidden v

  find_field-hidden :
      (k : String) (fs : Fields R) (p : String) (xs : List String)
      → find_field k (walk_fields r fs p xs).0
        ≡ map_value (replaced (r.is_sensitive k)) (find_field k fs)
  unfolding walk
  find_field-hidden k no_fields p xs = refl
  find_field-hidden k (field j v fs) p xs = elim (Bool-cases (j == k)) [
    | inl e ↦
        let same = (string_eq.beq_iff j k).0 e in
        rw (e, same)
          (elim (Bool-cases (r.is_sensitive k)) [
            | inl s ↦ rw s refl
            | inr s ↦ rw s (ap some (walk-hidden v (child_path r p k) "" xs []))
          ])
    | inr e ↦ rw e (elim (Bool-cases (r.is_sensitive j)) [
      | inl s ↦ rw s (find_field-hidden k fs p (xs ++ child_path r p j ∷ []))
      | inr s ↦ rw s (find_field-hidden k fs p (walk r v (child_path r p j) xs).1)
    ])
  ]

  nth_item-hidden :
      (n : ℕ) (vs : Items R) (p : String) (m : ℕ) (xs : List String)
      → nth_item n (walk_items r vs p m xs).0 ≡ map_value hidden (nth_item n vs)
  unfolding walk
  nth_item-hidden n no_items p m xs = refl
  nth_item-hidden zero (item v vs) p m xs = ap some (walk-hidden v (index_path r p m) "" xs [])
  nth_item-hidden (suc n) (item v vs) p m xs =
      nth_item-hidden n vs p (suc m) (walk r v (index_path r p m) xs).1

  follow-hidden :
      (s : Step) (v : Json R)
      → follow s (hidden v) ≡ map_value (replaced (step_sensitive r s)) (follow s v)
  unfolding walk
  follow-hidden (at_key k) (scalar x) = refl
  follow-hidden (at_key k) (array vs) = refl
  follow-hidden (at_key k) (mapping fs) = find_field-hidden k fs "" []
  follow-hidden (at_index n) (scalar x) = refl
  follow-hidden (at_index n) (array vs) = nth_item-hidden n vs "" 0 []
  follow-hidden (at_index n) (mapping fs) = refl

  -- What stands at a position of the payload afterwards, by what stood there.
  abbrev pub expected : List Step → Option (Json R) → Option (Json R)
  expected p found =
      if first_sensitive r p
      then map_value surrogate found
      else if any_sensitive r p
      then none
      else map_value hidden found

  at_path-below : (p : List Step) (s : Step) (x : Scalar R) → at_path (s ∷ p) (scalar x) ≡ none
  at_path-below p (at_key k) x = refl
  at_path-below p (at_index n) x = refl

  expected-none : (p : List Step) → expected p none ≡ none
  expected-none p = ground arith

  at_path-shut :
      (s : Step) (p : List Step) (w : Json R)
      → step_sensitive r s ≡ true
      → at_path p (surrogate w) ≡ expected (s ∷ p) (at_path p w)
  at_path-shut s [] w e = rw e refl
  at_path-shut s (t ∷ q) w e = rw e (at_path-below q t (text (tokenize r w)))

  pub at_path-hidden :
      (p : List Step) (v : Json R) → at_path p (hidden v) ≡ expected p (at_path p v)
  at_path-hidden [] v = refl
  at_path-hidden (s ∷ p) v =
      ap (λ o. then_at o (at_path p)) (follow-hidden s v) ∙ after (at_path-hidden p) (follow s v)
    where
      after :
          ((w : Json R) → at_path p (hidden w) ≡ expected p (at_path p w))
          → (o : Option (Json R))
          → then_at (map_value (replaced (step_sensitive r s)) o) (at_path p)
            ≡ expected (s ∷ p) (then_at o (at_path p))
      after ih none = sym (expected-none (s ∷ p))
      after ih (some w) = elim (Bool-cases (step_sensitive r s)) [
        | inl e ↦ rw e (rw e at (at_path-shut s p w e))
        | inr e ↦ rw e (ih w)
      ]
