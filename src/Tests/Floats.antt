-- ===== src/Tests/Floats.antt =====
-- Whole numbers in the place of floats, for the tests.
use veri_pay.Common.{if◌then◌else◌, leb, ltb, ℕ, ◌*◌, ◌+◌, ◌-◌}
use veri_pay.DecisionEngine.Float.{Float}

abbrev pub naturals : Float
naturals = record {
  Real = ℕ;
  of_nat = λ n. n;
  add = λ a b. a + b;
  mul = λ a b. a * b;
  sub = λ a b. a - b;
  true_div = λ a b. if leb b a then 1 else 0;
  le = leb;
  lt = ltb;
}
