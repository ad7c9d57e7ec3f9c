-- ===== src/Privacy/Outline.antt =====
-- The payload that the redactor of libs/veripay_common/veripay_common/privacy.py returns, said by what
-- can be seen at each position: a scalar, the length of a list, or the keys of a mapping.
use veri_pay.Common.{
  Bool-cases, List, Option, String, [], ap, arith, if◌then◌else◌, inl, inr, none, refl, some, suc,
  text_append, ℕ, ◌++◌, ◌∙◌, ◌∷◌, ◌≡◌,
}
use veri_pay.Privacy.{
  Fields, Items, Json, Redactor, Scalar, array, child_path, field, index_path, item, mapping,
  no_fields, no_items, prefix, redact, scalar, text, tokenize, walk, walk_fields, walk_items,
}
use veri_pay.Privacy.Paths.{Step, any_sensitive, at_path, first_sensitive}
use veri_pay.Privacy.Values.{at_path-hidden, expected, hidden}

pub data Outline (R : Type 0) : Type 0 where
  leaf : Scalar R → Outline R
  list_of : ℕ → Outline R
  keyed : List String → Outline R

module _ {R : Type 0} where
  abbrev pub count_items : Items R → ℕ
  count_items no_items = 0
  count_items (item v vs) = suc (count_items vs)

  abbrev pub keys_of : Fields R → List String
  keys_of no_fields = []
  keys_of (field k v fs) = k ∷ keys_of fs

  abbrev pub outline : Json R → Outline R
  outline (scalar x) = leaf x
  outline (array vs) = list_of (count_items vs)
  outline (mapping fs) = keyed (keys_of fs)

  abbrev pub map_found : (Json R → Outline R) → Option (Json R) → Option (Outline R)
  map_found g none = none
  map_found g (some v) = some (g v)

module _ {R : Type 0} (r : Redactor R) where
  count_items-walk_items :
      (vs : Items R) (p : String) (m : ℕ) (xs : List String)
      → count_items (walk_items r vs p m xs).0 ≡ count_items vs
  unfolding walk
  count_items-walk_items no_items p m xs = refl
  count_items-walk_items (item v vs) p m xs =
      ap suc (count_items-walk_items vs p (suc m) (walk r v (index_path r p m) xs).1)

  keys_of-walk_fields :
      (fs : Fields R) (p : String) (xs : List String)
      → keys_of (walk_fields r fs p xs).0 ≡ keys_of fs
  unfolding walk
  keys_of-walk_fields no_fields p xs = refl
  keys_of-walk_fields (field k v fs) p xs = elim (Bool-cases (r.is_sensitive k)) [
    | inl e ↦ rw e (ap (λ l. k ∷ l) (keys_of-walk_fields fs p (xs ++ child_path r p k ∷ [])))
    | inr e ↦ rw e (ap (λ l. k ∷ l) (keys_of-walk_fields fs p (walk r v (child_path r p k) xs).1))
  ]

  outline-hidden : (v : Json R) → outline (hidden r v) ≡ outline v
  unfolding walk
  outline-hidden (scalar x) = refl
  outline-hidden (array vs) = ap list_of (count_items-walk_items vs "" 0 [])
  outline-hidden (mapping fs) = ap keyed (keys_of-walk_fields fs "" [])

  -- The text that stands for a value: twenty digits of the hash of the namespace and the value.
  abbrev pub token_of : Json R → Outline R
  token_of v = leaf (
      text (
        text_append "tok_"
          (prefix 20 (r.hexdigest (text_append r.namespace (text_append ":" (r.str_value v)))))))

  outline-expected :
      (p : List Step) (found : Option (Json R))
      → map_found outline (expected r p found) ≡ (
          if first_sensitive r p
          then map_found token_of found
          else if any_sensitive r p
          then none
          else map_found outline found)
  unfolding tokenize
  outline-expected p none = ground arith
  outline-expected p (some v) = elim (Bool-cases (first_sensitive r p)) [
    | inl e ↦ rw e refl
    | inr e ↦ elim (Bool-cases (any_sensitive r p)) [
      | inl g ↦ rw (e, g) refl
      | inr g ↦ rw (e, g) (ap some (outline-hidden v))
    ]
  ]

  -- What is seen at any position of any payload afterwards, by what stood there. Where the last step,
  -- and no earlier one, is a sensitive key: the token of the value. Below a sensitive key: nothing.
  -- Elsewhere: the same scalar, a list of the same length, or a mapping with the same keys in the same
  -- order, and nothing where nothing stood.
  pub redact-at_path :
      (p : List Step) (payload : Fields R)
      → map_found outline (at_path p (mapping (redact r payload).0)) ≡ (
          if first_sensitive r p
          then map_found token_of (at_path p (mapping payload))
          else if any_sensitive r p
          then none
          else map_found outline (at_path p (mapping payload)))
  unfolding redact walk
  redact-at_path p payload =
      ap (map_found outline) (at_path-hidden r p (mapping payload))
      ∙ outline-expected p (at_path p (mapping payload))
