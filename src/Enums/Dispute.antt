-- ===== src/Enums/Dispute.antt =====
-- libs/veripay_common/veripay_common/enums.py: disputes.
use veri_pay.Common.{Eq, arith, nat_beq, true, ℕ, ◌↔◌, ◌≡◌}

pub data DisputeStatus : Type 0 where
  opened represented accepted reversed expired : DisputeStatus

-- The members in order; `==` on a `StrEnum` tells any two of them apart.
abbrev pub dispute_status_index : DisputeStatus → ℕ
dispute_status_index DisputeStatus.opened = 0
dispute_status_index DisputeStatus.represented = 1
dispute_status_index DisputeStatus.accepted = 2
dispute_status_index DisputeStatus.reversed = 3
dispute_status_index DisputeStatus.expired = 4

pub dispute_status_beq_iff :
    (a b : DisputeStatus)
    → (nat_beq (dispute_status_index a) (dispute_status_index b) ≡ true) ↔ (a ≡ b)
dispute_status_beq_iff a b = ground arith

instance abbrev pub dispute_status_eq : Eq DisputeStatus
dispute_status_eq = record {
  beq = λ a b. nat_beq (dispute_status_index a) (dispute_status_index b);
  beq_iff = dispute_status_beq_iff;
}

pub data DisputeReason : Type 0 where
  fraud authorization processing_error consumer merchant : DisputeReason

-- The members in order; `==` on a `StrEnum` tells any two of them apart.
abbrev pub dispute_reason_index : DisputeReason → ℕ
dispute_reason_index DisputeReason.fraud = 0
dispute_reason_index DisputeReason.authorization = 1
dispute_reason_index DisputeReason.processing_error = 2
dispute_reason_index DisputeReason.consumer = 3
dispute_reason_index DisputeReason.merchant = 4

pub dispute_reason_beq_iff :
    (a b : DisputeReason)
    → (nat_beq (dispute_reason_index a) (dispute_reason_index b) ≡ true) ↔ (a ≡ b)
dispute_reason_beq_iff a b = ground arith

instance abbrev pub dispute_reason_eq : Eq DisputeReason
dispute_reason_eq = record {
  beq = λ a b. nat_beq (dispute_reason_index a) (dispute_reason_index b);
  beq_iff = dispute_reason_beq_iff;
}
