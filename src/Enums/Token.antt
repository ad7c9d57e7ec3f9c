-- ===== src/Enums/Token.antt =====
-- libs/veripay_common/veripay_common/enums.py: the token vault.
use veri_pay.Common.{Eq, arith, nat_beq, true, ℕ, ◌↔◌, ◌≡◌}

pub data TokenType : Type 0 where
  single_use merchant_locked subscription dynamic_cvv : TokenType

pub data DcvvStatus : Type 0 where
  match mismatch expired not_applicable : DcvvStatus

pub data TokenStatus : Type 0 where
  active exhausted revoked : TokenStatus

-- The members in order; `==` on a `StrEnum` tells any two of them apart.
abbrev pub token_status_index : TokenStatus → ℕ
token_status_index TokenStatus.active = 0
token_status_index TokenStatus.exhausted = 1
token_status_index TokenStatus.revoked = 2

pub token_status_beq_iff :
    (a b : TokenStatus) → (nat_beq (token_status_index a) (token_status_index b) ≡ true) ↔ (a ≡ b)
token_status_beq_iff a b = ground arith

instance abbrev pub token_status_eq : Eq TokenStatus
token_status_eq = record {
  beq = λ a b. nat_beq (token_status_index a) (token_status_index b);
  beq_iff = token_status_beq_iff;
}
