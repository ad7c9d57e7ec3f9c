-- ===== src/Security/Split.antt =====
-- The two cuts of `token.split(".", 2)`.
use veri_pay.Common.{
  All, Option, Text, [], arith, false, if◌then◌else◌, nat_eq, none, refl, some, ℕ, ◌++◌, ◌==◌, ◌∷◌,
  ◌≡◌,
}

-- Prefixes a cut text by one more character.
abbrev cut_later : ℕ → Option (Text × Text) → Option (Text × Text)
cut_later c none = none
cut_later c (some (a, b)) = some (c ∷ a, b)

-- The text before the first dot and the text behind it; none without a dot.
unfoldable pub split_dot : Text → Option (Text × Text)
split_dot [] = none
split_dot (c ∷ cs) =
    let rest = split_dot cs in if c == b'.' then some ([], cs) else cut_later c rest

abbrev pub NoDot : Text → Type 0
NoDot = All (λ c. (c == b'.') ≡ false)

pub split_dot-append : (a b : Text) → NoDot a → split_dot (a ++ b'.' ∷ b) ≡ some (a, b)
unfolding split_dot
split_dot-append [] b h = refl
split_dot-append (c ∷ cs) b h = rw (h.0, split_dot-append cs b h.1)

-- A cut is undone by writing the dot back.
pub split_dot-eq-some : (t a b : Text) → split_dot t ≡ some (a, b) → (t ≡ a ++ b'.' ∷ b) × NoDot a
unfolding split_dot
split_dot-eq-some [] a b h = cc
split_dot-eq-some (c ∷ cs) [] b h = ground arith
split_dot-eq-some (c ∷ cs) (d ∷ a) b h = ground (arith, split_dot-eq-some cs a b)
