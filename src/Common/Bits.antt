-- ===== src/Common/Bits.antt =====
-- Facts about the exclusive or of bytes, by looking at each pair of bytes.
use Prim.Native.Nat.{ℕ, zero, suc, ◌<◌, bit_xor}
use mathlib.Core.Path.{◌≡◌, refl}
use mathlib.Core.Bool.{Bool, true, ◌&&◌}
use native.Mathlib.Omega.{arith}
use veri_pay.Common.Equality.{nat_beq, nat_beq_iff, ltb, ltb→lt}

-- A byte.
abbrev pub IsByte : ℕ → Type 0
IsByte n = n < 256

-- The test holds of each of the first `n` numbers.
holds_up_to : (ℕ → Bool) → ℕ → Bool
holds_up_to test zero = true
holds_up_to test (suc n) = holds_up_to test n && test n

holds_up_to_lem :
    (test : ℕ → Bool) (n : ℕ) → holds_up_to test n ≡ true → (x : ℕ) → x < n → test x ≡ true
unfolding holds_up_to
holds_up_to_lem test zero h x lt = absurd (omega arith)
holds_up_to_lem test (suc n) h x lt = ground (arith, holds_up_to_lem test n (ground arith) x)

holds_of_bytes : (ℕ → ℕ → Bool) → Bool
unfolding holds_up_to
holds_of_bytes test = holds_up_to (λ x. holds_up_to (test x) 256) 256

holds_of_bytes_lem :
    (test : ℕ → ℕ → Bool)
    → holds_of_bytes test ≡ true
    → (x y : ℕ) → IsByte x
    → IsByte y
    → test x y ≡ true
unfolding holds_of_bytes
holds_of_bytes_lem test h x y hx hy =
    holds_up_to_lem (test x) 256 (holds_up_to_lem (λ a. holds_up_to (test a) 256) 256 h x hx) y hy

undone : ℕ → ℕ → Bool
undone x y = nat_beq (bit_xor (bit_xor x y) y) x

small : ℕ → ℕ → Bool
small x y = ltb (bit_xor x y) 256

undone_table : holds_of_bytes undone ≡ true
unfolding holds_of_bytes undone holds_up_to
undone_table = refl

small_table : holds_of_bytes small ≡ true
unfolding holds_of_bytes small holds_up_to
small_table = refl

-- The exclusive or with a byte is undone by itself.
pub bit_xor_twice : (x y : ℕ) → IsByte x → IsByte y → bit_xor (bit_xor x y) y ≡ x
unfolding undone
bit_xor_twice x y hx hy =
    (nat_beq_iff (bit_xor (bit_xor x y) y) x).0 (holds_of_bytes_lem undone undone_table x y hx hy)

-- It is a byte.
pub bit_xor-IsByte : (x y : ℕ) → IsByte x → IsByte y → IsByte (bit_xor x y)
unfolding small
bit_xor-IsByte x y hx hy = ltb→lt (bit_xor x y) 256 (holds_of_bytes_lem small small_table x y hx hy)
