-- ===== src/RiskPolicy.antt =====
-- libs/veripay_common/veripay_common/risk_policy.py: tiers, bands, paths and the policy of a tier.
pub mod Score
pub mod Bands
use veri_pay.Common.{
  Bool, List, Result, [], contains, err, false, if◌then◌else◌, leb, negsuc, not, ok, pos, true, ℕ,
  ℤ, ◌==◌, ◌∷◌,
}
use veri_pay.Enums.Payment.{PaymentRail, ProcessingPath, payment_rail_eq}
use veri_pay.Enums.Risk.{
  DecisionAction, FrictionType, RiskBand, RiskTier, TimeoutFallback, VerificationWorkflow,
  risk_band_eq, risk_tier_eq,
}

-- The exceptions of the module: a score out of range, and the `StopIteration` of `next`.
pub data PolicyError : Type 0 where
  score_out_of_range stop_iteration : PolicyError

pub record TierPolicy : Type 0 where
  pub tier : RiskTier
  pub minimum_score : ℕ
  pub maximum_score : ℕ
  pub friction : FrictionType
  pub workflow : VerificationWorkflow
  pub timeout_seconds : ℕ
  pub timeout_fallback : TimeoutFallback
  pub fallback_action : DecisionAction
  pub temporary_lock : Bool
  pub analyst_escalation : Bool

abbrev pub tier_policies : List TierPolicy
tier_policies =
    record {
      tier = RiskTier.no_risk;
      minimum_score = 0;
      maximum_score = 5;
      friction = FrictionType.none;
      workflow = VerificationWorkflow.silent_pass;
      timeout_seconds = 0;
      timeout_fallback = TimeoutFallback.standard_audit;
      fallback_action = DecisionAction.allow;
      temporary_lock = false;
      analyst_escalation = false;
    }
    ∷ record {
      tier = RiskTier.low;
      minimum_score = 6;
      maximum_score = 25;
      friction = FrictionType.push;
      workflow = VerificationWorkflow.push_approve_deny;
      timeout_seconds = 30;
      timeout_fallback = TimeoutFallback.auto_decline;
      fallback_action = DecisionAction.decline;
      temporary_lock = false;
      analyst_escalation = false;
    }
    ∷ record {
      tier = RiskTier.moderate;
      minimum_score = 26;
      maximum_score = 50;
      friction = FrictionType.biometric;
      workflow = VerificationWorkflow.push_biometric;
      timeout_seconds = 30;
      timeout_fallback = TimeoutFallback.auto_decline_and_lock;
      fallback_action = DecisionAction.decline;
      temporary_lock = true;
      analyst_escalation = false;
    }
    ∷ record {
      tier = RiskTier.high;
      minimum_score = 51;
      maximum_score = 100;
      friction = FrictionType.multi_factor;
      workflow = VerificationWorkflow.exact_amount_biometric_swipe;
      timeout_seconds = 30;
      timeout_fallback = TimeoutFallback.live_analyst_escalation;
      fallback_action = DecisionAction.review;
      temporary_lock = false;
      analyst_escalation = true;
    }
    ∷ []

-- A Python `int`; the services give whole scores.
unfoldable pub tier_for_score : ℤ → Result PolicyError RiskTier
tier_for_score (negsuc n) = err score_out_of_range
tier_for_score (pos n) =
    if not (leb n 100)
    then err score_out_of_range
    else if leb n 5
    then ok RiskTier.no_risk
    else if leb n 25
    then ok RiskTier.low
    else if leb n 50
    then ok RiskTier.moderate
    else ok RiskTier.high

-- `next(policy for policy in policies if policy.tier == tier)`
unfoldable pub first_policy : RiskTier → List TierPolicy → Result PolicyError TierPolicy
first_policy t [] = err stop_iteration
first_policy t (p ∷ ps) = if p.tier == t then ok p else first_policy t ps

unfoldable pub policy_for_tier : RiskTier → Result PolicyError TierPolicy
unfolding first_policy
policy_for_tier t = first_policy t tier_policies

unfoldable pub tier_from_band : RiskBand → RiskTier
tier_from_band band =
    if band == RiskBand.approve
    then RiskTier.low
    else if band == RiskBand.verify
    then RiskTier.moderate
    else RiskTier.high

unfoldable pub band_for_tier : RiskTier → RiskBand
band_for_tier tier =
    if contains tier (RiskTier.no_risk ∷ RiskTier.low ∷ [])
    then RiskBand.approve
    else if tier == RiskTier.moderate
    then RiskBand.verify
    else RiskBand.block

unfoldable pub processing_path_for_rail : PaymentRail → ProcessingPath
processing_path_for_rail rail =
    if contains rail (PaymentRail.card ∷ PaymentRail.iso_8583 ∷ [])
    then ProcessingPath.fast
    else ProcessingPath.secondary

unfoldable pub allowed_actions_for_tier : RiskTier → List DecisionAction
allowed_actions_for_tier tier =
    if tier == RiskTier.no_risk
    then DecisionAction.allow ∷ DecisionAction.monitor ∷ []
    else if tier == RiskTier.low
    then DecisionAction.allow ∷ DecisionAction.challenge ∷ DecisionAction.decline ∷ []
    else if tier == RiskTier.moderate
    then DecisionAction.challenge ∷ DecisionAction.review ∷ DecisionAction.decline ∷ []
    else DecisionAction.review ∷ DecisionAction.decline ∷ DecisionAction.reverse ∷ []
