-- ===== src/ExternalContext.antt =====
-- services/external_context/veripay_external_context/service.py: the economic, seasonal and geographic
-- signals around a transaction. The scores of a request are those that its validation lets through,
-- and the clock reading is an argument.
pub mod Normalized
use veri_pay.Common.{
  Bool, List, Option, String, [], get_or, if◌then◌else◌, leb, length, list_eq, ltb, nat_eq, none,
  option_eq, seconds, some, string_eq, sum, ℕ, ◌%◌, ◌&&◌, ◌*◌, ◌+◌, ◌-◌, ◌/◌, ◌==◌, ◌∷◌,
}
use veri_pay.DecisionEngine.Float.{Float}
use veri_pay.Enums.Dispute.{dispute_reason_eq, dispute_status_eq}
use veri_pay.Enums.Payment.{
  channel_eq, payment_rail_eq, processing_path_eq, verification_outcome_eq,
}
use veri_pay.Enums.Risk.{decision_action_eq, risk_band_eq, risk_tier_eq}
use veri_pay.Enums.Token.{token_status_eq}
use veri_pay.Enums.Trust.{
  device_platform_eq, device_trust_state_eq, gpv_outcome_eq, sca_exemption_eq,
}

pub data ExternalAvailability : Type 0 where
  available stale unavailable : ExternalAvailability

pub record ExternalContextRequest : Type 0 where
  pub transaction_id : String
  pub region : Option String
  pub economic_risk_score : Option ℕ
  pub seasonal_risk_score : Option ℕ
  pub geographic_risk_score : Option ℕ
  pub observed_at : Option ℕ
  pub now : Option ℕ
  pub max_age_seconds : ℕ
  pub provenance : String

pub record ExternalContextResponse (f : Float) : Type 0 where
  pub transaction_id : String
  pub availability : ExternalAvailability
  pub normalized_score : ℕ
  pub confidence : f.Real
  pub reason_code : String
  pub provenance : String
  pub region : Option String
  pub observed_at : Option ℕ

-- `[value for value in ... if value is not None]`
abbrev pub given : List (Option ℕ) → List ℕ
given [] = []
given (none ∷ xs) = given xs
given (some x ∷ xs) = x ∷ given xs

abbrev pub signals : ExternalContextRequest → List ℕ
signals r = given (r.economic_risk_score ∷ r.seasonal_risk_score ∷ r.geographic_risk_score ∷ [])

-- `round(a / b)`: to the nearest, and to the even one of two that are as near. The quotient of a sum
-- of up to three scores by their number is never so near a half that the float would differ.
unfoldable pub round_quotient : ℕ → ℕ → ℕ
round_quotient a b =
    let q = a / b in
    if ltb (2 * (a % b)) b
    then q
    else if ltb b (2 * (a % b))
    then q + 1
    else if q % 2 == 0
    then q
    else q + 1

-- `max(values)` and `min(values)` of a list that begins with the first argument
abbrev pub largest : ℕ → List ℕ → ℕ
largest x [] = x
largest x (y ∷ ys) = let rest = largest y ys in if ltb x rest then rest else x

abbrev pub smallest : ℕ → List ℕ → ℕ
smallest x [] = x
smallest x (y ∷ ys) = let rest = smallest y ys in if ltb rest x then rest else x

-- More than one value, and 60 points between the extremes
abbrev pub contradictory : ℕ → List ℕ → Bool
contradictory x xs = ltb 1 (length (x ∷ xs)) && leb 60 (largest x xs - smallest x xs)

module _ (f : Float) where
  -- `min(1.0, 0.4 + len(values) * 0.2)`
  abbrev pub confidence_in : ℕ → f.Real
  confidence_in n =
      let grown = f.add (f.true_div 2 5) (f.mul (f.of_nat n) (f.true_div 1 5)) in
      if f.lt grown (f.of_nat 1) then grown else f.of_nat 1

  -- A response with the neutral score 50
  abbrev pub neutral :
      ExternalContextRequest
      → ExternalAvailability
      → f.Real
      → String
      → Option ℕ
      → ExternalContextResponse f
  neutral r availability confidence reason observed = record {
    transaction_id = r.transaction_id;
    availability = availability;
    normalized_score = 50;
    confidence = confidence;
    reason_code = reason;
    provenance = r.provenance;
    region = r.region;
    observed_at = observed;
  }

  abbrev pub normalized : ExternalContextRequest → ℕ → List ℕ → ExternalContextResponse f
  normalized r observed [] =
      neutral r ExternalAvailability.unavailable (f.of_nat 0) "EXTERNAL_SIGNALS_MISSING"
        (some observed)
  normalized r observed (x ∷ xs) = record {
    transaction_id = r.transaction_id;
    availability = ExternalAvailability.available;
    normalized_score = round_quotient (sum (x ∷ xs)) (length (x ∷ xs));
    confidence = if contradictory x xs then f.true_div 1 10 else confidence_in (length (x ∷ xs));
    reason_code =
        if contradictory x xs
        then "EXTERNAL_SIGNALS_CONTRADICTORY"
        else "EXTERNAL_CONTEXT_NORMALIZED";
    provenance = r.provenance;
    region = r.region;
    observed_at = some observed;
  }

  -- `(now - observed_at).total_seconds() > max_age_seconds`; a later observation is not too old.
  abbrev pub too_old : ExternalContextRequest → ℕ → ℕ → Bool
  too_old r clock observed = ltb (seconds r.max_age_seconds) (get_or r.now clock - observed)

  unfoldable pub evaluate_external_context : ExternalContextRequest → ℕ → ExternalContextResponse f
  evaluate_external_context r clock = elim r.observed_at [
    | none ↦
        neutral r ExternalAvailability.unavailable (f.of_nat 0) "EXTERNAL_CONTEXT_UNAVAILABLE" none
    | some observed ↦
        if too_old r clock observed
        then neutral r ExternalAvailability.stale (f.true_div 1 10) "EXTERNAL_CONTEXT_STALE"
            (some observed)
        else normalized r observed (signals r)
  ]
