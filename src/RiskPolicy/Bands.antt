-- ===== src/RiskPolicy/Bands.antt =====
-- The projections between tiers and bands, and the actions of a tier, of risk_policy.py.
use veri_pay.Common.{arith, contains, ok, true, ◌≡◌}
use veri_pay.Enums.Risk.{RiskBand, RiskTier, decision_action_eq}
use veri_pay.RiskPolicy.{
  TierPolicy, allowed_actions_for_tier, band_for_tier, policy_for_tier, tier_from_band,
}

-- The legacy band of the tier of a band is that band.
pub band_for_tier-tier_from_band : (b : RiskBand) → band_for_tier (tier_from_band b) ≡ b
unfolding band_for_tier tier_from_band
band_for_tier-tier_from_band b = ground arith

-- The fallback action in the policy of a tier is one of the actions that the tier allows.
pub fallback-contains :
    (t : RiskTier) (p : TierPolicy)
    → policy_for_tier t ≡ ok p
    → contains p.fallback_action (allowed_actions_for_tier t) ≡ true
unfolding policy_for_tier allowed_actions_for_tier
fallback-contains t p h = ground arith
