-- ===== src/Common/Texts.antt =====
-- Text as the list of its code points, for code that takes a text apart, and instants as
-- microseconds since an origin: a `datetime` without a zone is read as UTC, as the services do.
use Prim.Native.Nat.{ℕ, suc, ◌*◌}
use Prim.Native.Char.{code}
use Prim.Native.String.{String, ◌++◌}
use mathlib.Core.List.{List, [], ◌∷◌}

abbrev pub Text : Type 0
Text = List ℕ

abbrev pub codes : String → Text
codes String.[] = []
codes (String.◌∷◌ c s) = code c ∷ codes s

-- `len(s)`
abbrev pub chars : String → ℕ
chars String.[] = 0
chars (String.◌∷◌ c s) = suc (chars s)

abbrev pub text_append : String → String → String
text_append s t = s ++ t

-- `timedelta(seconds=n)`
abbrev pub seconds : ℕ → ℕ
seconds n = 1000000 * n
