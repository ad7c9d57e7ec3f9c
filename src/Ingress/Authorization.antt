-- ===== src/Ingress/Authorization.antt =====
-- What `authorize` answers to a transaction.
use veri_pay.Common.{
  Bool, Bool-cases, Option-cases, String, ap, arith, false, if◌then◌else◌, inl, inr, is_some, leb,
  none, ok, refl, some, sym, ◌&&◌, ◌==◌, ◌∙◌, ◌≡◌, ◌≤◌,
}
use veri_pay.Enums.Payment.{Channel, PaymentRail, channel_eq}
use veri_pay.Enums.Risk.{DecisionAction, RiskTier, decision_action_eq, risk_tier_eq}
use veri_pay.Ingress.{
  AuthorizationResponse, RiskScore, Transaction, Verdict, authorize, calculate_risk,
  legacy_authorize, legacy_verdict, rail_authorize, tier_verdict,
}
use veri_pay.RiskPolicy.{band_for_tier, tier_for_score}
use veri_pay.RiskPolicy.Score.{policy_for_tier-total}

-- The decision by the transaction alone: an amount of at least 100000 is challenged, and so is a
-- payment on a named rail whose card is not present; all else is allowed.
abbrev pub expected_decision : Transaction → DecisionAction
expected_decision t =
    if leb 100000 t.amount_minor
    then DecisionAction.challenge
    else if is_some t.payment_rail && t.channel == Channel.card_not_present
    then DecisionAction.challenge
    else DecisionAction.allow

abbrev pub expected_tier : Transaction → RiskTier
expected_tier t =
    if leb 100000 t.amount_minor
    then RiskTier.moderate
    else if t.channel == Channel.card_not_present
    then RiskTier.low
    else RiskTier.no_risk

-- A transaction always has a risk; its score is at most 45, and its tier is MODERATE by the amount,
-- else LOW if the card is not present, else NO_RISK.
calculate_risk-total :
    (t : Transaction)
    → (risk : RiskScore) × (calculate_risk t ≡ ok risk)
      × (risk.unified_score ≤ 45)
      × (risk.tier ≡ expected_tier t)
      × (risk.band ≡ band_for_tier (expected_tier t))
unfolding calculate_risk tier_for_score
calculate_risk-total t = elim (Bool-cases (leb 100000 t.amount_minor)) [
  | inl e ↦ elim (Bool-cases (t.channel == Channel.card_not_present)) [
    | inl h ↦ rw (calculate_risk, e, h) (_, refl, omega arith, refl, refl)
    | inr h ↦ rw (calculate_risk, e, h) (_, refl, omega arith, refl, refl)
  ]
  | inr e ↦ elim (Bool-cases (t.channel == Channel.card_not_present)) [
    | inl h ↦ rw (calculate_risk, e, h) (_, refl, omega arith, refl, refl)
    | inr h ↦ rw (calculate_risk, e, h) (_, refl, omega arith, refl, refl)
  ]
]

-- What an answer takes from a verdict and from the risk.
abbrev Follows : AuthorizationResponse → Verdict → RiskTier → Bool → Type 0
Follows answer v tier escalation =
    (answer.decision ≡ v.decision)
    × (answer.challenge_id ≡ v.challenge_id)
    × (answer.risk_tier ≡ tier)
    × (answer.escalation_required ≡ escalation)

legacy_authorize-Follows :
    (t : Transaction) (risk : RiskScore) (hex : String)
    → (answer : AuthorizationResponse) × (legacy_authorize t risk hex ≡ ok answer)
      × Follows answer (legacy_verdict risk.band hex) risk.tier false
unfolding legacy_authorize
legacy_authorize-Follows t risk hex =
    let (policy, found, _) = policy_for_tier-total risk.tier in
    rw (legacy_authorize, found) (_, refl, (refl, refl, refl, refl))

rail_authorize-Follows :
    (t : Transaction) (risk : RiskScore) (rail : PaymentRail) (hex job_hex : String)
    → (answer : AuthorizationResponse) × (rail_authorize t risk rail hex job_hex ≡ ok answer)
      × Follows answer (tier_verdict risk.tier hex) risk.tier (risk.tier == RiskTier.high)
unfolding rail_authorize
rail_authorize-Follows t risk rail hex job_hex =
    let (policy, found, _) = policy_for_tier-total risk.tier in
    rw (rail_authorize, found) (_, refl, (refl, refl, refl, refl))

legacy_verdict_lem :
    (t : Transaction) (hex : String)
    → t.payment_rail ≡ none
    → let v = legacy_verdict (band_for_tier (expected_tier t)) hex in
      (v.decision ≡ expected_decision t)
      × (is_some v.challenge_id ≡ (v.decision == DecisionAction.challenge))
unfolding legacy_verdict band_for_tier
legacy_verdict_lem t hex h = ground arith

tier_verdict_lem :
    (t : Transaction) (hex : String) (rail : PaymentRail)
    → t.payment_rail ≡ some rail
    → let v = tier_verdict (expected_tier t) hex in
      (v.decision ≡ expected_decision t)
      × (is_some v.challenge_id ≡ (v.decision == DecisionAction.challenge))
      × ((expected_tier t == RiskTier.high) ≡ false)
unfolding tier_verdict
tier_verdict_lem t hex rail h = ground arith

authorize_legacy :
    (t : Transaction) (hex job_hex : String) (risk : RiskScore)
    → calculate_risk t ≡ ok risk
    → t.payment_rail ≡ none
    → authorize t hex job_hex ≡ legacy_authorize t risk hex
unfolding authorize
authorize_legacy t hex job_hex risk h e = rw (authorize, h, e) refl

authorize_rail :
    (t : Transaction) (hex job_hex : String) (risk : RiskScore) (rail : PaymentRail)
    → calculate_risk t ≡ ok risk
    → t.payment_rail ≡ some rail
    → authorize t hex job_hex ≡ rail_authorize t risk rail hex job_hex
unfolding authorize
authorize_rail t hex job_hex risk rail h e = rw (authorize, h, e) refl

-- Every transaction is authorized, with the decision that `expected_decision` reads off it: none is
-- declined, reviewed or escalated, and a challenge has an identifier.
pub authorize-total :
    (t : Transaction) (hex job_hex : String)
    → (answer : AuthorizationResponse) × (authorize t hex job_hex ≡ ok answer)
      × (answer.decision ≡ expected_decision t)
      × (answer.risk_tier ≡ expected_tier t)
      × (is_some answer.challenge_id ≡ (answer.decision == DecisionAction.challenge))
      × (answer.escalation_required ≡ false)
authorize-total t hex job_hex =
    let (risk, found, _, tier, band) = calculate_risk-total t in
    elim (Option-cases t.payment_rail) [
      | inl e ↦
          let (answer, same, (decision, challenge, its_tier, escalation)) =
            legacy_authorize-Follows t risk hex in
          let (expected, paired) = legacy_verdict_lem t hex e in
          let v = ap (λ b. legacy_verdict b hex) band in
          let made = decision ∙ ap (λ w. w.decision) v in
          (
            answer,
            authorize_legacy t hex job_hex risk found e ∙ same,
            made ∙ expected,
            its_tier ∙ tier,
            ap is_some (challenge ∙ ap (λ w. w.challenge_id) v)
                ∙ paired
                ∙ ap (λ a. a == DecisionAction.challenge) (sym made),
            escalation,
          )
      | inr (rail, e) ↦
          let (answer, same, (decision, challenge, its_tier, escalation)) =
            rail_authorize-Follows t risk rail hex job_hex in
          let (expected, paired, calm) = tier_verdict_lem t hex rail e in
          let v = ap (λ b. tier_verdict b hex) tier in
          let made = decision ∙ ap (λ w. w.decision) v in
          (
            answer,
            authorize_rail t hex job_hex risk rail found e ∙ same,
            made ∙ expected,
            its_tier ∙ tier,
            ap is_some (challenge ∙ ap (λ w. w.challenge_id) v)
                ∙ paired
                ∙ ap (λ a. a == DecisionAction.challenge) (sym made),
            escalation ∙ ap (λ k. k == RiskTier.high) tier ∙ calm,
          )
    ]
