-- ===== src/Enums/Payment.antt =====
-- libs/veripay_common/veripay_common/enums.py: rails, paths, explanations and verification outcomes.
use veri_pay.Common.{Eq, arith, nat_beq, true, ℕ, ◌↔◌, ◌≡◌}

pub data Mti : Type 0 where
  authorization_request authorization_response authorization_reversal : Mti

pub data Channel : Type 0 where
  card_present card_not_present : Channel

-- The members in order; `==` on a `StrEnum` tells any two of them apart.
abbrev pub channel_index : Channel → ℕ
channel_index Channel.card_present = 0
channel_index Channel.card_not_present = 1

pub channel_beq_iff :
    (a b : Channel) → (nat_beq (channel_index a) (channel_index b) ≡ true) ↔ (a ≡ b)
channel_beq_iff a b = ground arith

instance abbrev pub channel_eq : Eq Channel
channel_eq = record {
  beq = λ a b. nat_beq (channel_index a) (channel_index b);
  beq_iff = channel_beq_iff;
}

pub data PaymentRail : Type 0 where
  card iso_8583 fednow rtp ach swift iso_20022 domestic_instant : PaymentRail

-- The members in order; `==` on a `StrEnum` tells any two of them apart.
abbrev pub payment_rail_index : PaymentRail → ℕ
payment_rail_index PaymentRail.card = 0
payment_rail_index PaymentRail.iso_8583 = 1
payment_rail_index PaymentRail.fednow = 2
payment_rail_index PaymentRail.rtp = 3
payment_rail_index PaymentRail.ach = 4
payment_rail_index PaymentRail.swift = 5
payment_rail_index PaymentRail.iso_20022 = 6
payment_rail_index PaymentRail.domestic_instant = 7

pub payment_rail_beq_iff :
    (a b : PaymentRail) → (nat_beq (payment_rail_index a) (payment_rail_index b) ≡ true) ↔ (a ≡ b)
payment_rail_beq_iff a b = ground arith

instance abbrev pub payment_rail_eq : Eq PaymentRail
payment_rail_eq = record {
  beq = λ a b. nat_beq (payment_rail_index a) (payment_rail_index b);
  beq_iff = payment_rail_beq_iff;
}

pub data ProcessingPath : Type 0 where
  fast secondary : ProcessingPath

-- The members in order; `==` on a `StrEnum` tells any two of them apart.
abbrev pub processing_path_index : ProcessingPath → ℕ
processing_path_index ProcessingPath.fast = 0
processing_path_index ProcessingPath.secondary = 1

pub processing_path_beq_iff :
    (a b : ProcessingPath)
    → (nat_beq (processing_path_index a) (processing_path_index b) ≡ true) ↔ (a ≡ b)
processing_path_beq_iff a b = ground arith

instance abbrev pub processing_path_eq : Eq ProcessingPath
processing_path_eq = record {
  beq = λ a b. nat_beq (processing_path_index a) (processing_path_index b);
  beq_iff = processing_path_beq_iff;
}

pub data ExplanationMode : Type 0 where
  async in_band : ExplanationMode

pub data VerificationOutcome : Type 0 where
  pending approved denied timed_out expired locked escalated : VerificationOutcome

-- The members in order; `==` on a `StrEnum` tells any two of them apart.
abbrev pub verification_outcome_index : VerificationOutcome → ℕ
verification_outcome_index VerificationOutcome.pending = 0
verification_outcome_index VerificationOutcome.approved = 1
verification_outcome_index VerificationOutcome.denied = 2
verification_outcome_index VerificationOutcome.timed_out = 3
verification_outcome_index VerificationOutcome.expired = 4
verification_outcome_index VerificationOutcome.locked = 5
verification_outcome_index VerificationOutcome.escalated = 6

pub verification_outcome_beq_iff :
    (a b : VerificationOutcome)
    → (nat_beq (verification_outcome_index a) (verification_outcome_index b) ≡ true) ↔ (a ≡ b)
verification_outcome_beq_iff a b = ground arith

instance abbrev pub verification_outcome_eq : Eq VerificationOutcome
verification_outcome_eq = record {
  beq = λ a b. nat_beq (verification_outcome_index a) (verification_outcome_index b);
  beq_iff = verification_outcome_beq_iff;
}
