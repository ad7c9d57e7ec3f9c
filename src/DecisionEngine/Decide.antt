-- ===== src/DecisionEngine/Decide.antt =====
-- `decide` of services/decision_engine/veripay_decision_engine/service.py. The clock and the random
-- identifier of an explanation job are arguments.
use veri_pay.Common.{
  Bool, List, Option, Result, String, [], err, get_or, if◌then◌else◌, none, not, ok, or_raise,
  raise_as, some, text_append, true, ℕ, ◌&&◌, ◌==◌, ◌>>=◌, ◌∷◌,
}
use veri_pay.DecisionEngine.Control.{Forced, hard_control}
use veri_pay.DecisionEngine.Float.{Float}
use veri_pay.DecisionEngine.Models.{
  CostModel, DecisionCandidate, DecisionError, DecisionReason, DecisionRequest, DecisionResponse,
  assertion_failed, cost_minimized, fast_path_async_explanation, invalid_cost, no_candidates,
  policy_failed, secondary_path_in_band_explanation,
}
use veri_pay.Enums.Payment.{ExplanationMode, ProcessingPath, processing_path_eq}
use veri_pay.Enums.Risk.{
  DecisionAction, RiskBand, RiskTier, decision_action_eq, risk_band_eq, risk_tier_eq,
}
use veri_pay.RiskPolicy.{
  TierPolicy, allowed_actions_for_tier, band_for_tier, policy_for_tier, tier_from_band,
}

-- `_candidate_actions`
unfoldable pub candidate_actions : RiskBand → List DecisionAction
candidate_actions band =
    if band == RiskBand.approve
    then DecisionAction.allow ∷ DecisionAction.monitor ∷ []
    else if band == RiskBand.verify
    then DecisionAction.monitor ∷ DecisionAction.challenge ∷ DecisionAction.review ∷ []
    else DecisionAction.review ∷ DecisionAction.decline ∷ []

abbrev pub explanation_mode_of : ProcessingPath → ExplanationMode
explanation_mode_of path =
    if path == ProcessingPath.fast then ExplanationMode.async else ExplanationMode.in_band

module _ (f : Float) where
  open f use {Real, of_nat, add, mul, sub, true_div, le, lt}

  -- `_expected_cost`
  unfoldable pub expected_cost : DecisionAction → Real → CostModel f → Real
  expected_cost DecisionAction.allow p m = mul p m.fraud_loss_minor
  expected_cost DecisionAction.monitor p m =
      add m.monitor_cost_minor (mul (mul p m.fraud_loss_minor) m.monitor_residual_fraud_rate)
  expected_cost DecisionAction.challenge p m =
      add m.challenge_cost_minor (mul (mul p m.fraud_loss_minor) m.challenge_residual_fraud_rate)
  expected_cost DecisionAction.review p m =
      add m.review_cost_minor (mul (mul p m.fraud_loss_minor) m.review_residual_fraud_rate)
  expected_cost DecisionAction.decline p m = mul (sub (of_nat 1) p) m.false_decline_loss_minor
  expected_cost DecisionAction.reverse p m =
      add m.reversal_cost_minor (mul (mul p m.fraud_loss_minor) m.reversal_residual_fraud_rate)

  -- The constructor of a candidate, which checks that its cost is at least 0.
  unfoldable pub candidate : DecisionAction → Real → Result DecisionError (DecisionCandidate f)
  candidate a cost =
      if le (of_nat 0) cost
      then ok (record { action = a; expected_cost_minor = cost })
      else err invalid_cost

  unfoldable pub candidates_of :
      Real → CostModel f → List DecisionAction → Result DecisionError (List (DecisionCandidate f))
  candidates_of p m [] = ok []
  candidates_of p m (a ∷ others) = do
    c ← candidate a (expected_cost a p m)
    rest ← candidates_of p m others
    ok (c ∷ rest)

  -- `min(candidates, key=...)`: the first of the least cost.
  unfoldable pub cheapest : DecisionCandidate f → List (DecisionCandidate f) → DecisionCandidate f
  cheapest best [] = best
  cheapest best (c ∷ cs) =
      cheapest (if lt c.expected_cost_minor best.expected_cost_minor then c else best) cs

  -- `next(... if candidate.action == CHALLENGE, None)`
  unfoldable pub first_challenge : List (DecisionCandidate f) → Option (DecisionCandidate f)
  first_challenge [] = none
  first_challenge (c ∷ cs) =
      if c.action == DecisionAction.challenge then some c else first_challenge cs

  -- The selected candidate, with the friction that the tiers above NO_RISK require.
  unfoldable pub select :
      Bool → RiskTier → DecisionCandidate f → List (DecisionCandidate f) → DecisionCandidate f
  select matrix tier c cs =
      let best = cheapest c cs in
      if matrix && (not (tier == RiskTier.no_risk) && best.action == DecisionAction.allow)
      then get_or (first_challenge (c ∷ cs)) best
      else best

  unfoldable pub cost_reason : Bool → RiskTier → ProcessingPath → DecisionReason
  cost_reason matrix tier path =
      if not matrix
      then cost_minimized
      else if path == ProcessingPath.secondary
      then secondary_path_in_band_explanation
      else if not (tier == RiskTier.no_risk)
      then fast_path_async_explanation
      else cost_minimized

  -- `matrix_mode`
  abbrev pub matrix_mode : DecisionRequest f → RiskTier → Bool
  matrix_mode r tier = elim r.risk_band [
    | none ↦ true
    | some band ↦ not (tier == tier_from_band band)
  ]

  -- A request that is being decided, with what `decide` computes first.
  pub record Setting : Type 0 where
    pub request : DecisionRequest f
    pub tier : RiskTier
    pub path : ProcessingPath
    pub policy : TierPolicy
    pub job_id : Option String
    pub evaluated_at : ℕ

  abbrev pub respond :
      Setting
      → DecisionCandidate f
      → DecisionReason
      → List (DecisionCandidate f)
      → Option String
      → Bool
      → DecisionResponse f
  respond s c reason cs job escalation = record {
    transaction_id = s.request.transaction_id;
    action = c.action;
    risk_score = s.request.risk_score;
    risk_band = get_or s.request.risk_band (band_for_tier s.tier);
    risk_tier = s.tier;
    reason_code = reason;
    expected_cost_minor = c.expected_cost_minor;
    candidates = cs;
    friction = s.policy.friction;
    workflow = s.policy.workflow;
    timeout_seconds = s.policy.timeout_seconds;
    timeout_fallback = s.policy.timeout_fallback;
    processing_path = s.path;
    explanation_mode = explanation_mode_of s.path;
    explanation_job_id = job;
    escalation_required = escalation;
    evaluated_at = s.evaluated_at;
  }

  -- `_forced_response`
  unfoldable pub forced_response : Setting → Forced → Result DecisionError (DecisionResponse f)
  forced_response s x = do
    c ←
        candidate x.action
          (expected_cost x.action (true_div s.request.risk_score 100) s.request.cost_model)
    ok (respond s c x.reason (c ∷ []) (if x.with_job then s.job_id else none) x.escalation_required)

  abbrev pub actions_of : Setting → List DecisionAction
  actions_of s =
      if matrix_mode s.request s.tier
      then allowed_actions_for_tier s.tier
      else candidate_actions (get_or s.request.risk_band RiskBand.approve)

  -- The answer from a list of candidates; `min` of none raises.
  unfoldable pub answer_from :
      Setting → List (DecisionCandidate f) → Result DecisionError (DecisionResponse f)
  answer_from s [] = err no_candidates
  answer_from s (c ∷ cs) =
      let matrix = matrix_mode s.request s.tier in
      let selected = select matrix s.tier c cs in
      ok (
        respond s selected (cost_reason matrix s.tier s.path) (c ∷ cs) s.job_id
          (s.policy.analyst_escalation && selected.action == DecisionAction.review))

  -- `decide` behind the hard controls
  unfoldable pub cost_response : Setting → Result DecisionError (DecisionResponse f)
  cost_response s = do
    cs ← candidates_of (true_div s.request.risk_score 100) s.request.cost_model (actions_of s)
    answer_from s cs

  unfoldable pub decide_setting : Setting → Result DecisionError (DecisionResponse f)
  decide_setting s = elim (hard_control f s.request s.tier s.path) [
    | some x ↦ forced_response s x
    | none ↦ cost_response s
  ]

  -- `decide`: the time, and the `uuid4().hex` of the job identifier.
  unfoldable pub decide : DecisionRequest f → ℕ → String → Result DecisionError (DecisionResponse f)
  decide r now job_hex = do
    tier ← or_raise r.risk_tier assertion_failed
    let path = get_or r.processing_path ProcessingPath.fast
    policy ← raise_as policy_failed (policy_for_tier tier)
    decide_setting (record {
      request = record r { processing_path = some path };
      tier = tier;
      path = path;
      policy = policy;
      job_id =
          if path == ProcessingPath.fast && not r.explanation_available
          then some (text_append "explain_" job_hex)
          else none;
      evaluated_at = now;
    })
