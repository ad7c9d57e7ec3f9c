-- ===== src/RuleEngine/Triggers.antt =====
-- When a hard rule is triggered.
use veri_pay.Common.{arith, false, some, true, ◌<◌, ◌↔◌, ◌≡◌, ◌⊎◌}
use veri_pay.RuleEngine.{RuleEvaluationRequest, evaluate_rules}

-- The response is triggered exactly when the dynamic CVV mismatches, the merchant is not allowed, the
-- velocity is above its limit, the travel is impossible, or an untrusted device is on a trusted
-- network; a signal that is absent triggers nothing.
pub evaluate_rules-triggered :
    (r : RuleEvaluationRequest)
    → ((evaluate_rules r).triggered ≡ true) ↔ (
        (r.dcvv_match ≡ some false)
        ⊎ (r.merchant_allowed ≡ some false)
        ⊎ (r.velocity_limit_5m < r.velocity_count_5m)
        ⊎ (r.travel_impossible ≡ true)
        ⊎ ((r.device_trusted ≡ some false) × (r.network_trusted ≡ some true)))
unfolding evaluate_rules
evaluate_rules-triggered r = ground arith
