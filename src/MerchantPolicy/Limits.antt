-- ===== src/MerchantPolicy/Limits.antt =====
-- What services/merchant_policy/veripay_merchant_policy/service.py allows.
use veri_pay.Common.{
  Bool, Dict, List, Option, String, [], arith, contains, false, inl, inr, list_eq, nat_eq, none,
  not, option_eq, refl, some, string_eq, true, ℕ, ◌&&◌, ◌+◌, ◌||◌, ◌∷◌, ◌≡◌, ◌≤◌, ◌⊎◌,
}
use veri_pay.Enums.Dispute.{dispute_reason_eq, dispute_status_eq}
use veri_pay.Enums.Payment.{
  channel_eq, payment_rail_eq, processing_path_eq, verification_outcome_eq,
}
use veri_pay.Enums.Risk.{decision_action_eq, risk_band_eq, risk_tier_eq}
use veri_pay.Enums.Token.{token_status_eq}
use veri_pay.Enums.Trust.{
  device_platform_eq, device_trust_state_eq, gpv_outcome_eq, sca_exemption_eq,
}
use veri_pay.MerchantPolicy.{
  MerchantLockRule, PolicyEvaluationRequest, TextOps, allowed_codes, evaluate_policy, exceeds,
  findings_of, no_codes, select_rule,
}

-- The amount keeps to the limit, if there is one.
abbrev pub IsWithin : ℕ → Option ℕ → Type 0
IsWithin amount none = Unit
IsWithin amount (some limit) = amount ≤ limit

exceeds-IsWithin :
    (t : TextOps) (amount : ℕ) (o : Option ℕ) → exceeds t amount o ≡ false → IsWithin amount o
exceeds-IsWithin t amount none h = tt
exceeds-IsWithin t amount (some limit) h = ground (arith, h)

-- The category is listed, or the rule lists none.
abbrev pub IsListed : String → List String → Type 0
IsListed mcc mccs = (mccs ≡ []) ⊎ (contains mcc mccs ≡ true)

IsListed-cases :
    (t : TextOps) (mcc : String) (mccs : List String)
    → (not (no_codes t mccs) && not (contains mcc mccs)) ≡ false
    → IsListed mcc mccs
IsListed-cases t mcc [] h = inl refl
IsListed-cases t mcc (v ∷ vs) h = inr (ground (arith, h))

module _ (t : TextOps) where
  -- The four conditions of a rule.
  abbrev pub Permits : MerchantLockRule → PolicyEvaluationRequest → Type 0
  Permits rule q =
      IsListed q.mcc (allowed_codes t rule.allowed_mccs)
      × IsWithin q.amount_minor rule.max_spend_per_txn_minor
      × IsWithin (q.daily_spend_minor + q.amount_minor) rule.daily_spend_limit_minor
      × IsWithin q.velocity_count_5m rule.velocity_limit_5m

  or_false : (a b : Bool) → (a || b) ≡ false → (a ≡ false) × (b ≡ false)
  or_false a b h = ground arith

  -- A payment that is allowed, at a merchant whose selected rule is enforced: its category is one of
  -- the rule's or the rule names none, and the amount, the day's spending with the amount, and the
  -- velocity each keep to the rule's limit where there is one.
  pub evaluate_policy-Permits :
      (q : PolicyEvaluationRequest) (rules : Dict MerchantLockRule) (rule : MerchantLockRule)
      → select_rule rules q.merchant_id ≡ some rule
      → rule.enforce_merchant_lock ≡ true
      → (evaluate_policy t q rules).allowed ≡ true
      → Permits rule q
  unfolding evaluate_policy findings_of
  evaluate_policy-Permits q rules rule e enforced h =
      let mccs = allowed_codes t rule.allowed_mccs in
      let a = not (no_codes t mccs) && not (contains q.mcc mccs) in
      let b = exceeds t q.amount_minor rule.max_spend_per_txn_minor in
      let c = exceeds t (q.daily_spend_minor + q.amount_minor) rule.daily_spend_limit_minor in
      let d = exceeds t q.velocity_count_5m rule.velocity_limit_5m in
      let clear : not (a || (b || (c || (d || false)))) ≡ true =
        rw (e, enforced, evaluate_policy) at h in
      let (na, r₁) = or_false a (b || (c || (d || false))) (ground (arith, clear)) in
      let (nb, r₂) = or_false b (c || (d || false)) r₁ in
      let (nc, r₃) = or_false c (d || false) r₂ in
      let (nd, r₄) = or_false d false r₃ in
      (
        IsListed-cases t q.mcc mccs na,
        exceeds-IsWithin t q.amount_minor rule.max_spend_per_txn_minor nb,
        exceeds-IsWithin t (q.daily_spend_minor + q.amount_minor) rule.daily_spend_limit_minor nc,
        exceeds-IsWithin t q.velocity_count_5m rule.velocity_limit_5m nd,
      )
