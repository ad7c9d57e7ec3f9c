-- ===== src/AnalystApi/Reasoning.antt =====
-- services/analyst_api/veripay_analyst_api/reasoning.py: from the engine's action to the analysts'
-- vocabulary, and the check of the numbers that a text cites.
use veri_pay.AnalystApi.{Decision, RiskLevel, decision_eq}
use veri_pay.Common.{
  Bool, List, Option, String, [], any, codes, contains, false, if◌then◌else◌, list_eq, nat_eq, none,
  not, option_eq, some, string_eq, true, ◌&&◌, ◌++◌, ◌==◌, ◌∷◌,
}
use veri_pay.DecisionEngine.Decide.{candidate}
use veri_pay.DecisionEngine.Float.{Float}
use veri_pay.Enums.Dispute.{dispute_reason_eq, dispute_status_eq}
use veri_pay.Enums.Payment.{
  channel_eq, payment_rail_eq, processing_path_eq, verification_outcome_eq,
}
use veri_pay.Enums.Risk.{DecisionAction, RiskTier, decision_action_eq, risk_band_eq, risk_tier_eq}
use veri_pay.Enums.Token.{token_status_eq}
use veri_pay.Enums.Trust.{
  device_platform_eq, device_trust_state_eq, gpv_outcome_eq, sca_exemption_eq,
}

-- The tier is not read by the code.
unfoldable pub map_decision : DecisionAction → Decision
map_decision DecisionAction.allow = Decision.pass
map_decision DecisionAction.monitor = Decision.review_unusual
map_decision DecisionAction.challenge = Decision.review_unusual
map_decision DecisionAction.review = Decision.review_stealth
map_decision DecisionAction.decline = Decision.block
map_decision DecisionAction.reverse = Decision.block

unfoldable pub map_risk_level : RiskTier → RiskLevel
map_risk_level tier =
    if tier == RiskTier.high
    then RiskLevel.high
    else if tier == RiskTier.moderate
    then RiskLevel.moderate
    else RiskLevel.low

unfoldable pub verification_action_text : Decision → RiskTier → String
verification_action_text decision tier =
    if decision == Decision.pass
    then "No action."
    else if decision == Decision.review_unusual
    then (if tier == RiskTier.moderate
        then "Hold payment for 5 minutes; push notification 'Was this you?'; release if confirmed; escalate if no response."
        else "Soft check: confirm amount/date/vendor, then release.")
    else if decision == Decision.review_stealth
    then "Hold payment; require biometric; notify analyst."
    else "Hold payment; require biometric (fingerprint/face); notify analyst immediately."

-- `_NUMBER_RE.findall`, `float(token)` (none where it raises), and `abs`.
pub record Numbers (f : Float) : Type 0 where
  pub find_numbers : String → List String
  pub to_float : String → Option f.Real
  pub absolute : f.Real → f.Real

module _ (f : Float) (n : Numbers f) where
  -- `allowed_number_strings`, of the texts of the payload's values that are no booleans.
  unfoldable pub allowed_number_strings : List String → List String
  allowed_number_strings [] = []
  allowed_number_strings (v ∷ vs) = n.find_numbers v ++ allowed_number_strings vs

  -- The candidates' loop of `_matches_allowed`.
  abbrev pub is_near : f.Real → String → Bool
  is_near value candidate = elim (n.to_float candidate) [
    | none ↦ false
    | some c ↦ f.le (n.absolute (f.sub c value)) (f.mul (n.absolute value) (f.true_div 5 100))
  ]

  unfoldable pub matches_allowed : String → List String → Bool
  matches_allowed token allowed =
      if contains token allowed
      then true
      else elim (n.to_float token) [ none ↦ false | some value ↦ any (is_near value) allowed ]

  abbrev pub has_fraction : String → Bool
  has_fraction token = contains b'.' (codes token)

  -- The token is no number, or an incidental whole count below the floor.
  abbrev pub is_skipped : f.Real → String → Bool
  is_skipped floor token = elim (n.to_float token) [
    | none ↦ true
    | some value ↦ not (has_fraction token) && f.lt (n.absolute value) floor
  ]

  -- `false_found` is not empty.
  abbrev pub is_false : f.Real → List String → String → Bool
  is_false floor allowed token = not (is_skipped floor token) && not (matches_allowed token allowed)

  abbrev pub none_allowed : List String → Bool
  none_allowed [] = true
  none_allowed (x ∷ xs) = false

  unfoldable pub crosscheck_numbers : String → List String → f.Real → Bool × Bool
  unfolding allowed_number_strings matches_allowed
  crosscheck_numbers cited payload floor =
      let allowed = allowed_number_strings payload in
      if none_allowed allowed
      then (false, false)
      else (true, any (is_false floor allowed) (n.find_numbers cited))
