-- ===== src/Enums/Risk.antt =====
-- libs/veripay_common/veripay_common/enums.py: risk tiers and bands, actions and customer friction.
use veri_pay.Common.{Eq, arith, nat_beq, true, ℕ, ◌↔◌, ◌≡◌}

pub data RiskTier : Type 0 where
  no_risk low moderate high : RiskTier

-- The members in order; `==` on a `StrEnum` tells any two of them apart.
abbrev pub risk_tier_index : RiskTier → ℕ
risk_tier_index RiskTier.no_risk = 0
risk_tier_index RiskTier.low = 1
risk_tier_index RiskTier.moderate = 2
risk_tier_index RiskTier.high = 3

pub risk_tier_beq_iff :
    (a b : RiskTier) → (nat_beq (risk_tier_index a) (risk_tier_index b) ≡ true) ↔ (a ≡ b)
risk_tier_beq_iff a b = ground arith

instance abbrev pub risk_tier_eq : Eq RiskTier
risk_tier_eq = record {
  beq = λ a b. nat_beq (risk_tier_index a) (risk_tier_index b);
  beq_iff = risk_tier_beq_iff;
}

pub data RiskBand : Type 0 where
  approve verify block : RiskBand

-- The members in order; `==` on a `StrEnum` tells any two of them apart.
abbrev pub risk_band_index : RiskBand → ℕ
risk_band_index RiskBand.approve = 0
risk_band_index RiskBand.verify = 1
risk_band_index RiskBand.block = 2

pub risk_band_beq_iff :
    (a b : RiskBand) → (nat_beq (risk_band_index a) (risk_band_index b) ≡ true) ↔ (a ≡ b)
risk_band_beq_iff a b = ground arith

instance abbrev pub risk_band_eq : Eq RiskBand
risk_band_eq = record {
  beq = λ a b. nat_beq (risk_band_index a) (risk_band_index b);
  beq_iff = risk_band_beq_iff;
}

pub data DecisionAction : Type 0 where
  allow monitor challenge review decline reverse : DecisionAction

-- The members in order; `==` on a `StrEnum` tells any two of them apart.
abbrev pub decision_action_index : DecisionAction → ℕ
decision_action_index DecisionAction.allow = 0
decision_action_index DecisionAction.monitor = 1
decision_action_index DecisionAction.challenge = 2
decision_action_index DecisionAction.review = 3
decision_action_index DecisionAction.decline = 4
decision_action_index DecisionAction.reverse = 5

pub decision_action_beq_iff :
    (a b : DecisionAction)
    → (nat_beq (decision_action_index a) (decision_action_index b) ≡ true) ↔ (a ≡ b)
decision_action_beq_iff a b = ground arith

instance abbrev pub decision_action_eq : Eq DecisionAction
decision_action_eq = record {
  beq = λ a b. nat_beq (decision_action_index a) (decision_action_index b);
  beq_iff = decision_action_beq_iff;
}

pub data FrictionType : Type 0 where
  none push biometric multi_factor : FrictionType

pub data VerificationWorkflow : Type 0 where
  silent_pass push_approve_deny push_biometric exact_amount_biometric_swipe : VerificationWorkflow

pub data TimeoutFallback : Type 0 where
  standard_audit auto_decline auto_decline_and_lock live_analyst_escalation : TimeoutFallback
