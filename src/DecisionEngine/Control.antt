-- ===== src/DecisionEngine/Control.antt =====
-- The hard controls of `decide` in services/decision_engine/veripay_decision_engine/service.py, in
-- their order: the first that applies forces the action.
use veri_pay.Common.{
  Bool, Option, [], contains, false, if◌then◌else◌, none, not, some, true, ◌&&◌, ◌==◌, ◌∷◌,
}
use veri_pay.DecisionEngine.Float.{Float}
use veri_pay.DecisionEngine.Models.{
  DecisionReason, DecisionRequest, compliance_block, evidence_unavailable, reversal_request,
  verification_approved, verification_denied, verification_escalated, verification_timeout,
}
use veri_pay.Enums.Payment.{
  ProcessingPath, VerificationOutcome, processing_path_eq, verification_outcome_eq,
}
use veri_pay.Enums.Risk.{DecisionAction, RiskTier, risk_tier_eq}

-- A forced answer: its action and reason, whether it names the explanation job, and its escalation.
pub record Forced : Type 0 where
  pub action : DecisionAction
  pub reason : DecisionReason
  pub with_job : Bool
  pub escalation_required : Bool

abbrev forced : DecisionAction → DecisionReason → Bool → Bool → Option Forced
forced a reason job escalation =
    some (record { action = a; reason = reason; with_job = job; escalation_required = escalation })

-- The branches on the outcome of the verification.
unfoldable pub outcome_control : VerificationOutcome → RiskTier → Option Forced
outcome_control outcome tier =
    if contains outcome (
      VerificationOutcome.denied ∷ VerificationOutcome.timed_out ∷ VerificationOutcome.expired
      ∷ VerificationOutcome.locked ∷ [])
    then forced (if tier == RiskTier.high then DecisionAction.review else DecisionAction.decline)
        (if contains outcome (VerificationOutcome.timed_out ∷ VerificationOutcome.expired ∷ [])
          then verification_timeout
          else verification_denied)
        false (tier == RiskTier.high)
    else if outcome == VerificationOutcome.escalated
    then forced DecisionAction.review verification_escalated false true
    else if outcome == VerificationOutcome.approved
    then forced DecisionAction.allow verification_approved true false
    else none

unfoldable pub hard_control :
    (f : Float) → DecisionRequest f → RiskTier → ProcessingPath → Option Forced
unfolding outcome_control
hard_control f r tier path =
    if r.is_reversal
    then forced DecisionAction.reverse reversal_request true false
    else if r.compliance_blocked
    then forced DecisionAction.decline compliance_block true false
    else if not r.evidence_available
    then forced DecisionAction.review evidence_unavailable true (tier == RiskTier.high)
    else if path == ProcessingPath.secondary && not r.explanation_available
    then forced DecisionAction.review evidence_unavailable false true
    else outcome_control r.verification_outcome tier
