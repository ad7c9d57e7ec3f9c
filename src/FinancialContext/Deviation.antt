-- ===== src/FinancialContext/Deviation.antt =====
-- The score of `evaluate_financial_context`.
use veri_pay.Common.{
  Bool-cases, Option, Option-cases, Result, arith, err, if◌then◌else◌, inl, inr, ltb, none, ok,
  refl, seconds, some, ℕ, ◌-◌, ◌≡◌, ◌≤◌,
}
use veri_pay.DecisionEngine.Float.{Float}
use veri_pay.FinancialContext.{
  ContextError, FinancialContextRequest, FinancialContextResponse, Quotients, average_given,
  compare_amount, evaluate_financial_context, excess, graded, is_zero, now_of, observation_given,
}

fifty : 50 ≤ 100
fifty = omega arith

module _ (f : Float) (m : Quotients f) where
  -- The excess of the amount over the given average does not round to a whole number.
  abbrev pub Overflows : FinancialContextRequest f → Type 0
  Overflows r =
      (average : f.Real) × (r.average_amount_minor ≡ some average)
      × (m.round (excess f m (m.div (f.of_nat r.amount_minor) average)) ≡ none)

  -- A response has a score from 0 to 100, and an exception is an overflow.
  abbrev pub HasScore :
      FinancialContextRequest f → Result ContextError (FinancialContextResponse f) → Type 0
  HasScore r (ok a) = a.normalized_score ≤ 100
  HasScore r (err e) = Overflows r

  graded-bound :
      (r : FinancialContextRequest f) (average ratio : f.Real) (score : ℕ)
      → score ≤ 100
      → (graded f m r average ratio score).0 ≤ 100
  unfolding graded
  graded-bound r average ratio score h = ground arith

  compare_amount-HasScore :
      (r : FinancialContextRequest f) (observed : ℕ) (average : f.Real)
      → r.average_amount_minor ≡ some average
      → HasScore r (compare_amount f m r observed average)
  compare_amount-HasScore r observed average e =
      let rounded = m.round (excess f m (m.div (f.of_nat r.amount_minor) average)) in
      elim (Option-cases rounded) [
        | inl h ↦ rw h (average, e, h)
        | inr (n, h) ↦ rw h (
            graded-bound r average (m.div (f.of_nat r.amount_minor) average)
              (if ltb n 100 then n else 100) (ground arith))
      ]

  average_given-HasScore :
      (r : FinancialContextRequest f) (observed : ℕ) (given : Option f.Real)
      → r.average_amount_minor ≡ given
      → HasScore r (average_given f m r observed given)
  average_given-HasScore r observed none e = fifty
  average_given-HasScore r observed (some average) e = elim (Bool-cases (is_zero f m average)) [
    | inl nil ↦ rw nil fifty
    | inr positive ↦ rw positive (compare_amount-HasScore r observed average e)
  ]

  observation_given-HasScore :
      (r : FinancialContextRequest f) (clock : ℕ) (given : Option ℕ)
      → HasScore r (observation_given f m r clock given)
  observation_given-HasScore r clock none = fifty
  observation_given-HasScore r clock (some observed) =
      elim (Bool-cases (ltb (seconds r.max_age_seconds) (now_of f m r clock - observed))) [
        | inl old ↦ rw old fifty
        | inr fresh ↦ rw fresh (average_given-HasScore r observed r.average_amount_minor refl)
      ]

  -- Whatever the amounts and the floats of the request are, and whenever it was observed: the call
  -- returns a score of at most 100, or the ratio of the amount and the given average overflows.
  evaluate_financial_context-HasScore :
      (r : FinancialContextRequest f) (clock : ℕ)
      → HasScore r (evaluate_financial_context f m r clock)
  unfolding evaluate_financial_context
  evaluate_financial_context-HasScore r clock = observation_given-HasScore r clock r.observed_at
