-- ===== src/ComplianceEngine/Outcomes.antt =====
-- When the compliance engine lets a transaction pass, and when it blocks one.
use veri_pay.Common.{Bool, List, arith, false, some, true, ◌*◌, ◌↔◌, ◌≡◌, ◌≢◌, ◌≤◌, ◌⊎◌}
use veri_pay.ComplianceEngine.{
  ComplianceOutcome, ComplianceRequest, evaluate_compliance, findings_of, outcomes_of, overall,
}
use veri_pay.Enums.Trust.{DeviceTrustState, ScaExemption}

-- The customer is authenticated, exempt with an amount of at most three thresholds, or below the
-- threshold.
abbrev pub IsScaClear : ComplianceRequest → Type 0
IsScaClear r =
    (r.authenticated ≡ true)
    ⊎ (((r.sca_exemption ≢ ScaExemption.none) × (r.amount_minor ≤ r.low_value_threshold_minor * 3))
        ⊎ (r.amount_minor ≤ r.low_value_threshold_minor))

overall-blocking :
    (fail_closed : Bool) (outcomes : List ComplianceOutcome)
    → ((overall fail_closed outcomes).1 ≡ false) ↔ (
        ((overall fail_closed outcomes).0 ≡ ComplianceOutcome.pass)
        ⊎ (((overall fail_closed outcomes).0 ≡ ComplianceOutcome.unavailable)
            × (fail_closed ≡ false)))
unfolding overall
overall-blocking fail_closed outcomes = ground arith

-- The outcome is PASS exactly when the input is tokenized, strong customer authentication is given
-- or not needed, the network is trusted, and the device is trusted or no device signal is required.
pub evaluate_compliance-pass :
    (r : ComplianceRequest)
    → ((evaluate_compliance r).outcome ≡ ComplianceOutcome.pass) ↔ (
        (r.tokenized ≡ true)
        × IsScaClear r
        × (r.network_trusted ≡ some true)
        × ((r.device_signal_required ≡ false) ⊎ (r.device_trust_state ≡ DeviceTrustState.trusted)))
unfolding evaluate_compliance
evaluate_compliance-pass r = ground arith

-- A response does not block exactly when its outcome is PASS, or UNAVAILABLE and the request is not
-- to fail closed.
pub evaluate_compliance-blocking :
    (r : ComplianceRequest)
    → ((evaluate_compliance r).blocking ≡ false) ↔ (
        ((evaluate_compliance r).outcome ≡ ComplianceOutcome.pass)
        ⊎ (((evaluate_compliance r).outcome ≡ ComplianceOutcome.unavailable)
            × (r.fail_closed_on_unavailable ≡ false)))
unfolding evaluate_compliance
evaluate_compliance-blocking r =
    overall-blocking r.fail_closed_on_unavailable (outcomes_of (findings_of r))

-- A transaction that is not tokenized, or one from an untrusted network, is rejected and blocked,
-- and no other transaction is rejected.
pub evaluate_compliance-reject :
    (r : ComplianceRequest)
    → ((evaluate_compliance r).outcome ≡ ComplianceOutcome.reject)
      ↔ ((r.tokenized ≡ false) ⊎ (r.network_trusted ≡ some false))
unfolding evaluate_compliance
evaluate_compliance-reject r = ground arith
