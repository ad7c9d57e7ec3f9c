-- ===== src/Enums/Trust.antt =====
-- libs/veripay_common/veripay_common/enums.py: devices, locations and compliance.
use veri_pay.Common.{Eq, arith, nat_beq, true, ℕ, ◌↔◌, ◌≡◌}

pub data GpvOutcome : Type 0 where
  matched likely_match mismatched : GpvOutcome

-- The members in order; `==` on a `StrEnum` tells any two of them apart.
abbrev pub gpv_outcome_index : GpvOutcome → ℕ
gpv_outcome_index GpvOutcome.matched = 0
gpv_outcome_index GpvOutcome.likely_match = 1
gpv_outcome_index GpvOutcome.mismatched = 2

pub gpv_outcome_beq_iff :
    (a b : GpvOutcome) → (nat_beq (gpv_outcome_index a) (gpv_outcome_index b) ≡ true) ↔ (a ≡ b)
gpv_outcome_beq_iff a b = ground arith

instance abbrev pub gpv_outcome_eq : Eq GpvOutcome
gpv_outcome_eq = record {
  beq = λ a b. nat_beq (gpv_outcome_index a) (gpv_outcome_index b);
  beq_iff = gpv_outcome_beq_iff;
}

pub data DevicePlatform : Type 0 where
  ios android : DevicePlatform

-- The members in order; `==` on a `StrEnum` tells any two of them apart.
abbrev pub device_platform_index : DevicePlatform → ℕ
device_platform_index DevicePlatform.ios = 0
device_platform_index DevicePlatform.android = 1

pub device_platform_beq_iff :
    (a b : DevicePlatform)
    → (nat_beq (device_platform_index a) (device_platform_index b) ≡ true) ↔ (a ≡ b)
device_platform_beq_iff a b = ground arith

instance abbrev pub device_platform_eq : Eq DevicePlatform
device_platform_eq = record {
  beq = λ a b. nat_beq (device_platform_index a) (device_platform_index b);
  beq_iff = device_platform_beq_iff;
}

pub data DeviceTrustState : Type 0 where
  trusted untrusted unknown : DeviceTrustState

-- The members in order; `==` on a `StrEnum` tells any two of them apart.
abbrev pub device_trust_state_index : DeviceTrustState → ℕ
device_trust_state_index DeviceTrustState.trusted = 0
device_trust_state_index DeviceTrustState.untrusted = 1
device_trust_state_index DeviceTrustState.unknown = 2

pub device_trust_state_beq_iff :
    (a b : DeviceTrustState)
    → (nat_beq (device_trust_state_index a) (device_trust_state_index b) ≡ true) ↔ (a ≡ b)
device_trust_state_beq_iff a b = ground arith

instance abbrev pub device_trust_state_eq : Eq DeviceTrustState
device_trust_state_eq = record {
  beq = λ a b. nat_beq (device_trust_state_index a) (device_trust_state_index b);
  beq_iff = device_trust_state_beq_iff;
}

pub data ComplianceStandard : Type 0 where
  pci_dss_4_0 psd3_sca network_zero_trust : ComplianceStandard

pub data ScaExemption : Type 0 where
  low_value trusted_beneficiary recurring corporate none : ScaExemption

-- The members in order; `==` on a `StrEnum` tells any two of them apart.
abbrev pub sca_exemption_index : ScaExemption → ℕ
sca_exemption_index ScaExemption.low_value = 0
sca_exemption_index ScaExemption.trusted_beneficiary = 1
sca_exemption_index ScaExemption.recurring = 2
sca_exemption_index ScaExemption.corporate = 3
sca_exemption_index ScaExemption.none = 4

pub sca_exemption_beq_iff :
    (a b : ScaExemption)
    → (nat_beq (sca_exemption_index a) (sca_exemption_index b) ≡ true) ↔ (a ≡ b)
sca_exemption_beq_iff a b = ground arith

instance abbrev pub sca_exemption_eq : Eq ScaExemption
sca_exemption_eq = record {
  beq = λ a b. nat_beq (sca_exemption_index a) (sca_exemption_index b);
  beq_iff = sca_exemption_beq_iff;
}
