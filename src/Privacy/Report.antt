-- ===== src/Privacy/Report.antt =====
-- The report of the redactor of libs/veripay_common/veripay_common/privacy.py: which fields it
-- names in `redacted_fields`.
use mathlib.Core.List.{map-append}
use veri_pay.Common.{
  Bool-cases, List, String, [], ap, append-nil, append_assoc, ap₂, false, filter, filter-append,
  inl, inr, map, refl, suc, sym, true, ℕ, ◌++◌, ◌∙◌, ◌∷◌, ◌≡◌,
}
use veri_pay.Privacy.{
  Fields, Items, Json, Redactor, array, child_path, field, index_path, item, mapping, no_fields,
  no_items, redact, scalar, walk, walk_fields, walk_items,
}
use veri_pay.Privacy.Paths.{
  Step, at_index, at_key, field_positions, first_sensitive, item_positions, positions, render,
  render_step, step_sensitive,
}

module _ {R : Type 0} (r : Redactor R) where
  abbrev pub named : String → List (List Step) → List String
  named path ps = map (render r path) (filter (first_sensitive r) ps)

  named-append :
      (path : String) (ps qs : List (List Step))
      → named path (ps ++ qs) ≡ named path ps ++ named path qs
  named-append path ps qs =
      ap (map (render r path)) (filter-append (first_sensitive r) ps qs)
      ∙ map-append (render r path) (filter (first_sensitive r) ps) (filter (first_sensitive r) qs)

  -- Below a step that is no sensitive key the report is that of the value.
  named-open :
      (path : String) (s : Step) (ps : List (List Step))
      → step_sensitive r s ≡ false
      → named path (map (λ p. s ∷ p) ps) ≡ named (render_step r path s) ps
  named-open path s [] h = refl
  named-open path s (p ∷ ps) h = elim (Bool-cases (first_sensitive r p)) [
    | inl e ↦ rw (h, e) (ap (λ t. render r (render_step r path s) p ∷ t) (named-open path s ps h))
    | inr e ↦ rw (h, e) (named-open path s ps h)
  ]

  -- Below a sensitive key nothing is reported.
  named-shut :
      (path : String) (s t : Step) (ps : List (List Step))
      → step_sensitive r s ≡ true
      → named path (map (λ p. s ∷ p) (map (λ p. t ∷ p) ps)) ≡ []
  named-shut path s t [] h = refl
  named-shut path s t (p ∷ ps) h = rw h (named-shut path s t ps h)

  mutual
    unfolding positions

    below-shut :
        (v : Json R) (path : String) (s : Step)
        → step_sensitive r s ≡ true
        → named path (map (λ p. s ∷ p) (positions v)) ≡ []
    below-shut (scalar x) path s h = refl
    below-shut (array xs) path s h = items-shut xs 0 path s h
    below-shut (mapping fs) path s h = fields-shut fs path s h

    items-shut :
        (xs : Items R) (n : ℕ) (path : String) (s : Step)
        → step_sensitive r s ≡ true
        → named path (map (λ p. s ∷ p) (item_positions n xs)) ≡ []
    items-shut no_items n path s h = refl
    items-shut (item v xs) n path s h =
        let here = map (λ p. at_index n ∷ p) (positions v) in
        let rest = item_positions (suc n) xs in
        ap (named path) (map-append (λ p. s ∷ p) here rest)
        ∙ named-append path (map (λ p. s ∷ p) here) (map (λ p. s ∷ p) rest)
        ∙ ap₂ (λ a b. a ++ b) (named-shut path s (at_index n) (positions v) h)
            (items-shut xs (suc n) path s h)

    fields-shut :
        (fs : Fields R) (path : String) (s : Step)
        → step_sensitive r s ≡ true
        → named path (map (λ p. s ∷ p) (field_positions fs)) ≡ []
    fields-shut no_fields path s h = refl
    fields-shut (field k v fs) path s h =
        let here = map (λ p. at_key k ∷ p) (positions v) in
        let rest = field_positions fs in
        rw h (
          ap (named path) (map-append (λ p. s ∷ p) here rest)
          ∙ named-append path (map (λ p. s ∷ p) here) (map (λ p. s ∷ p) rest)
          ∙ ap₂ (λ a b. a ++ b) (named-shut path s (at_key k) (positions v) h)
              (fields-shut fs path s h))

  mutual
    unfolding positions walk

    walk-named :
        (v : Json R) (path : String) (redacted : List String)
        → (walk r v path redacted).1 ≡ redacted ++ named path (positions v)
    walk-named (scalar x) path redacted = sym (append-nil redacted)
    walk-named (array xs) path redacted = walk_items-named xs path 0 redacted
    walk-named (mapping fs) path redacted = walk_fields-named fs path redacted

    walk_items-named :
        (xs : Items R) (path : String) (n : ℕ) (redacted : List String)
        → (walk_items r xs path n redacted).1 ≡ redacted ++ named path (item_positions n xs)
    walk_items-named no_items path n redacted = sym (append-nil redacted)
    walk_items-named (item v xs) path n redacted =
        let inside = index_path r path n in
        let here = map (λ p. at_index n ∷ p) (positions v) in
        let rest = item_positions (suc n) xs in
        walk_items-named xs path (suc n) (walk r v inside redacted).1
        ∙ ap (λ l. l ++ named path rest) (walk-named v inside redacted)
        ∙ append_assoc redacted (named inside (positions v)) (named path rest)
        ∙ ap (λ l. redacted ++ l)
            (sym (
              named-append path here rest
              ∙ ap (λ l. l ++ named path rest) (named-open path (at_index n) (positions v) refl)))

    walk_fields-named :
        (fs : Fields R) (path : String) (redacted : List String)
        → (walk_fields r fs path redacted).1 ≡ redacted ++ named path (field_positions fs)
    walk_fields-named no_fields path redacted = sym (append-nil redacted)
    walk_fields-named (field k v fs) path redacted = elim (Bool-cases (r.is_sensitive k)) [
      | inl e ↦
          let inside = child_path r path k in
          let here = map (λ p. at_key k ∷ p) (positions v) in
          let rest = field_positions fs in
          rw e (
            walk_fields-named fs path (redacted ++ inside ∷ [])
            ∙ append_assoc redacted (inside ∷ []) (named path rest)
            ∙ ap (λ l. redacted ++ inside ∷ l)
                (sym (
                  named-append path here rest
                  ∙ ap (λ l. l ++ named path rest) (below-shut v path (at_key k) e))))
      | inr e ↦
          let inside = child_path r path k in
          let here = map (λ p. at_key k ∷ p) (positions v) in
          let rest = field_positions fs in
          rw e (
            walk_fields-named fs path (walk r v inside redacted).1
            ∙ ap (λ l. l ++ named path rest) (walk-named v inside redacted)
            ∙ append_assoc redacted (named inside (positions v)) (named path rest)
            ∙ ap (λ l. redacted ++ l)
                (sym (
                  named-append path here rest
                  ∙ ap (λ l. l ++ named path rest) (named-open path (at_key k) (positions v) e))))
    ]

  -- `redacted_fields` lists, in the order of the payload, the paths of exactly those keys that are
  -- sensitive and do not stand below a sensitive key.
  pub redact-fields :
      (payload : Fields R)
      → (redact r payload).1
        ≡ map (render r "") (filter (first_sensitive r) (field_positions payload))
  unfolding redact
  redact-fields payload = walk_fields-named payload "" []
