-- ===== src/RiskPolicy/Score.antt =====
-- Scores and tiers: `tier_for_score` against the table `TIER_POLICIES`, both of risk_policy.py.
use veri_pay.Common.{IsOk, arith, negsuc, ok, pos, refl, ℤ, ◌↔◌, ◌≡◌, ◌≤◌}
use veri_pay.Enums.Risk.{RiskTier}
use veri_pay.RiskPolicy.{TierPolicy, policy_for_tier, tier_for_score}

-- A whole score from 0 to 100.
abbrev pub InRange : ℤ → Type 0
InRange (pos n) = n ≤ 100
InRange (negsuc n) = ⊥

-- The score lies between the bounds that the table gives for the tier.
abbrev pub Covers : TierPolicy → ℤ → Type 0
Covers p (pos n) = (p.minimum_score ≤ n) × (n ≤ p.maximum_score)
Covers p (negsuc n) = ⊥

-- Every tier has a policy, and it is the policy of that tier.
pub policy_for_tier-total :
    (t : RiskTier) → (p : TierPolicy) × (policy_for_tier t ≡ ok p) × (p.tier ≡ t)
unfolding policy_for_tier
policy_for_tier-total RiskTier.no_risk = (_, refl, refl)
policy_for_tier-total RiskTier.low = (_, refl, refl)
policy_for_tier-total RiskTier.moderate = (_, refl, refl)
policy_for_tier-total RiskTier.high = (_, refl, refl)

-- A score has a tier exactly when it is from 0 to 100; any other raises.
pub tier_for_score-IsOk : (s : ℤ) → InRange s ↔ IsOk (tier_for_score s)
unfolding tier_for_score
tier_for_score-IsOk (pos n) = ground arith
tier_for_score-IsOk (negsuc n) = ground arith

-- The chain of comparisons and the table agree: a tier is the tier of a score exactly when the score
-- lies between the minimum and the maximum of the tier's policy.
pub tier_for_score-policy_for_tier :
    (s : ℤ) (t : RiskTier) (p : TierPolicy)
    → policy_for_tier t ≡ ok p
    → (tier_for_score s ≡ ok t) ↔ Covers p s
unfolding tier_for_score policy_for_tier
tier_for_score-policy_for_tier (pos n) t p h = ground arith
tier_for_score-policy_for_tier (negsuc n) t p h = ground arith
