-- ===== src/FinancialContext.antt =====
-- services/financial_context/veripay_financial_context/service.py: how far an amount deviates from the
-- behaviour of an account. The clock reading is an argument.
pub mod Deviation
use veri_pay.AnalystApi.Service.{score}
use veri_pay.Common.{
  Bool, Option, Result, String, false, get_or, if◌then◌else◌, leb, ltb, none, ok, or_raise, seconds,
  some, ℕ, ◌&&◌, ◌+◌, ◌-◌, ◌>>=◌, ◌>>◌,
}
use veri_pay.DecisionEngine.Float.{Float}

pub data ContextAvailability : Type 0 where
  available stale unavailable : ContextAvailability

-- `round` of an infinite float raises.
pub data ContextError : Type 0 where
  overflow_error : ContextError

-- What the code calls of Python on floats: a quotient, `round` to an `int` of a number that is not
-- negative, and `round(x, 4)`.
pub record Quotients (f : Float) : Type 0 where
  pub div : f.Real → f.Real → f.Real
  pub round : f.Real → Option ℕ
  pub round4 : f.Real → f.Real

pub record FinancialContextRequest (f : Float) : Type 0 where
  pub transaction_id : String
  pub amount_minor : ℕ
  pub average_amount_minor : Option f.Real
  pub available_balance_minor : Option ℕ
  pub daily_spend_minor : Option ℕ
  pub account_age_days : Option ℕ
  pub observed_at : Option ℕ
  pub now : Option ℕ
  pub max_age_seconds : ℕ

pub record FinancialContextResponse (f : Float) : Type 0 where
  pub transaction_id : String
  pub availability : ContextAvailability
  pub normalized_score : ℕ
  pub deviation_ratio : Option f.Real
  pub confidence : f.Real
  pub reason_code : String
  pub provenance : String
  pub observed_at : Option ℕ

module _ (f : Float) (m : Quotients f) where
  -- `_now`
  abbrev pub now_of : FinancialContextRequest f → ℕ → ℕ
  now_of r clock = get_or r.now clock

  abbrev pub is_zero : f.Real → Bool
  is_zero x = f.le x (f.of_nat 0) && f.le (f.of_nat 0) x

  -- `max(0, (ratio - 1) * 35)`: the first argument, unless the second is greater.
  abbrev pub excess : f.Real → f.Real
  excess ratio =
      let x = f.mul (f.sub ratio (f.of_nat 1)) (f.of_nat 35) in
      if f.lt (f.of_nat 0) x then x else f.of_nat 0

  abbrev pub exceeds_balance : FinancialContextRequest f → Bool
  exceeds_balance r = elim r.available_balance_minor [
    | none ↦ false
    | some balance ↦ ltb balance r.amount_minor
  ]

  abbrev pub exceeds_daily : FinancialContextRequest f → f.Real → Bool
  exceeds_daily r average = elim r.daily_spend_minor [
    | none ↦ false
    | some spent ↦ f.lt (f.mul average (f.of_nat 5)) (f.of_nat (spent + r.amount_minor))
  ]

  -- The score and the reason, from the score of the ratio
  unfoldable pub graded : FinancialContextRequest f → f.Real → f.Real → ℕ → ℕ × String
  graded r average ratio score =
      if exceeds_balance r
      then (90, "AMOUNT_EXCEEDS_AVAILABLE_BALANCE")
      else if exceeds_daily r average
      then (if ltb score 75 then 75 else score, "DAILY_SPEND_DEVIATION")
      else if f.lt (f.of_nat 1) ratio
      then (score, "AMOUNT_ABOVE_BASELINE")
      else (score, "WITHIN_BEHAVIORAL_BASELINE")

  abbrev pub confidence_of : FinancialContextRequest f → f.Real
  confidence_of r = elim r.account_age_days [
    | none ↦ f.true_div 4 5
    | some age ↦ if leb 30 age then f.true_div 4 5 else f.true_div 11 20
  ]

  abbrev pub answer :
      FinancialContextRequest f
      → ContextAvailability
      → ℕ × String
      → Option f.Real
      → f.Real
      → Option ℕ
      → FinancialContextResponse f
  answer r availability grade ratio confidence observed = record {
    transaction_id = r.transaction_id;
    availability = availability;
    normalized_score = grade.0;
    deviation_ratio = ratio;
    confidence = confidence;
    reason_code = grade.1;
    provenance = "financial-context";
    observed_at = observed;
  }

  -- `min(100, round(...))`, and the response
  abbrev pub compare_amount :
      FinancialContextRequest f → ℕ → f.Real → Result ContextError (FinancialContextResponse f)
  compare_amount r observed average = do
    let ratio = m.div (f.of_nat r.amount_minor) average
    rounded ← or_raise (m.round (excess ratio)) overflow_error
    ok (
        answer r ContextAvailability.available
          (graded r average ratio (if ltb rounded 100 then rounded else 100))
          (some (m.round4 ratio)) (confidence_of r) (some observed))

  abbrev pub no_average : FinancialContextRequest f → ℕ → FinancialContextResponse f
  no_average r observed =
      answer r ContextAvailability.unavailable (50, "AVERAGE_AMOUNT_UNAVAILABLE") none (f.of_nat 0)
        (some observed)

  -- The rest of the call, from the test of the average on
  abbrev pub average_given :
      FinancialContextRequest f
      → ℕ
      → Option f.Real
      → Result ContextError (FinancialContextResponse f)
  average_given r observed none = ok (no_average r observed)
  average_given r observed (some average) =
      if is_zero average then ok (no_average r observed) else compare_amount r observed average

  -- The rest of the call, from the test of the observation on
  abbrev pub observation_given :
      FinancialContextRequest f → ℕ → Option ℕ → Result ContextError (FinancialContextResponse f)
  observation_given r clock none =
      ok (
        answer r ContextAvailability.unavailable (50, "BASELINE_UNAVAILABLE") none (f.of_nat 0)
          none)
  observation_given r clock (some observed) =
      if ltb (seconds r.max_age_seconds) (now_of r clock - observed)
      then ok (
          answer r ContextAvailability.stale (50, "BASELINE_STALE") none (f.true_div 1 10)
            (some observed))
      else average_given r observed r.average_amount_minor

  unfoldable pub evaluate_financial_context :
      FinancialContextRequest f → ℕ → Result ContextError (FinancialContextResponse f)
  unfolding graded
  evaluate_financial_context r clock = observation_given r clock r.observed_at
