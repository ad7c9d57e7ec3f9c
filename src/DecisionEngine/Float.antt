-- ===== src/DecisionEngine/Float.antt =====
-- Python's `float`, a parameter of the decision engine's model: its operations, and the laws of
-- IEEE 754 that the theorems name.
use veri_pay.Common.{Bool, false, true, ℕ, ◌<◌, ◌≡◌, ◌≤◌}

pub record Float : Type 1 where
  pub Real : Type 0
  pub of_nat : ℕ → Real
  pub add : Real → Real → Real
  pub mul : Real → Real → Real
  pub sub : Real → Real → Real
  -- `a / b` of two `int`s
  pub true_div : ℕ → ℕ → Real
  -- `a <= b` and `a < b`; both are false of a NaN
  pub le : Real → Real → Bool
  pub lt : Real → Real → Bool

-- `0 <= x`: no NaN.
abbrev pub IsNonneg : (f : Float) → f.Real → Type 0
IsNonneg f x = f.le (f.of_nat 0) x ≡ true

-- The order of the numbers that are not negative: total and transitive.
pub record OrderLaws (f : Float) : Type 0 where
  pub lt_le : (a b : f.Real) → f.lt a b ≡ true → f.le a b ≡ true
  pub not_lt_le : (a b : f.Real) → IsNonneg f a → IsNonneg f b → f.lt b a ≡ false → f.le a b ≡ true
  pub le_refl : (a : f.Real) → IsNonneg f a → f.le a a ≡ true
  pub le_trans : (a b c : f.Real) → f.le a b ≡ true → f.le b c ≡ true → f.le a c ≡ true

-- Finite amounts that are not negative, and fractions from 0 to 1: rounding keeps products with a
-- fraction and complements of a fraction where they are, and a sum does not become negative.
pub record AmountLaws (f : Float) : Type 1 where
  pub IsAmount : f.Real → Type 0
  pub InUnit : f.Real → Type 0
  pub amount_nonneg : (x : f.Real) → IsAmount x → IsNonneg f x
  pub fraction : (a b : ℕ) → a ≤ b → 0 < b → InUnit (f.true_div a b)
  pub complement : (p : f.Real) → InUnit p → InUnit (f.sub (f.of_nat 1) p)
  pub scale : (p x : f.Real) → InUnit p → IsAmount x → IsAmount (f.mul p x)
  pub scale_right : (x p : f.Real) → IsAmount x → InUnit p → IsAmount (f.mul x p)
  pub sum_nonneg : (x y : f.Real) → IsAmount x → IsAmount y → IsNonneg f (f.add x y)
