-- ===== src/DecisionEngine/Total.antt =====
-- The requests that `decide` answers.
use veri_pay.Common.{
  IsOk, List, Option-cases, Result, String, [], arith, if◌then◌else◌, inl, inr, none, ok, refl,
  some, sym, ℕ, ◌∙◌, ◌∷◌, ◌≡◌, ◌≢◌, ◌≤◌,
}
use veri_pay.DecisionEngine.Control.{Forced, hard_control}
use veri_pay.DecisionEngine.Decide.{
  Setting, actions_of, answer_from, candidate, candidate_actions, candidates_of, cost_response,
  decide, decide_setting, expected_cost, forced_response, respond,
}
use veri_pay.DecisionEngine.Float.{AmountLaws, Float, IsNonneg}
use veri_pay.DecisionEngine.Models.{CostModel, DecisionCandidate, DecisionRequest, DecisionResponse}
use veri_pay.DecisionEngine.Safety.{decide_setting-cost, decide_setting-forced}
use veri_pay.DecisionEngine.Selection.{actions, candidates_of-actions}
use veri_pay.Enums.Risk.{DecisionAction, RiskTier}
use veri_pay.RiskPolicy.{allowed_actions_for_tier}
use veri_pay.RiskPolicy.Score.{policy_for_tier-total}

-- The cost model that the request's fields validate: amounts, and fractions of at most 1.
pub record IsCostModel (f : Float) (laws : AmountLaws f) (m : CostModel f) : Type 0 where
  pub fraud_loss : laws.IsAmount m.fraud_loss_minor
  pub false_decline_loss : laws.IsAmount m.false_decline_loss_minor
  pub monitor_cost : laws.IsAmount m.monitor_cost_minor
  pub challenge_cost : laws.IsAmount m.challenge_cost_minor
  pub review_cost : laws.IsAmount m.review_cost_minor
  pub reversal_cost : laws.IsAmount m.reversal_cost_minor
  pub monitor_residual : laws.InUnit m.monitor_residual_fraud_rate
  pub challenge_residual : laws.InUnit m.challenge_residual_fraud_rate
  pub review_residual : laws.InUnit m.review_residual_fraud_rate
  pub reversal_residual : laws.InUnit m.reversal_residual_fraud_rate

ok-IsOk : {E A : Type 0} (m : Result E A) → (a : A) × (m ≡ ok a) → IsOk m
ok-IsOk m (a, h) = rw (h) tt

candidate_nonneg :
    (f : Float) (a : DecisionAction) (cost : f.Real)
    → IsNonneg f cost
    → (c : DecisionCandidate f) × (candidate f a cost ≡ ok c)
unfolding candidate
candidate_nonneg f a cost h = (record { action = a; expected_cost_minor = cost }, rw (h) refl)

module _ (f : Float) (laws : AmountLaws f) where
  residual-IsNonneg :
      (cost p loss rate : f.Real)
      → laws.IsAmount cost
      → laws.InUnit p
      → laws.IsAmount loss
      → laws.InUnit rate
      → IsNonneg f (f.add cost (f.mul (f.mul p loss) rate))
  residual-IsNonneg cost p loss rate hc hp hl hr =
      laws.sum_nonneg _ _ hc (laws.scale_right _ rate (laws.scale p loss hp hl) hr)

  expected_cost-IsNonneg :
      (a : DecisionAction) (p : f.Real) (m : CostModel f)
      → laws.InUnit p
      → IsCostModel f laws m
      → IsNonneg f (expected_cost f a p m)
  unfolding expected_cost
  expected_cost-IsNonneg DecisionAction.allow p m hp v =
      laws.amount_nonneg _ (laws.scale p _ hp v.fraud_loss)
  expected_cost-IsNonneg DecisionAction.monitor p m hp v =
      residual-IsNonneg _ p _ _ v.monitor_cost hp v.fraud_loss v.monitor_residual
  expected_cost-IsNonneg DecisionAction.challenge p m hp v =
      residual-IsNonneg _ p _ _ v.challenge_cost hp v.fraud_loss v.challenge_residual
  expected_cost-IsNonneg DecisionAction.review p m hp v =
      residual-IsNonneg _ p _ _ v.review_cost hp v.fraud_loss v.review_residual
  expected_cost-IsNonneg DecisionAction.decline p m hp v =
      laws.amount_nonneg _ (laws.scale _ _ (laws.complement p hp) v.false_decline_loss)
  expected_cost-IsNonneg DecisionAction.reverse p m hp v =
      residual-IsNonneg _ p _ _ v.reversal_cost hp v.fraud_loss v.reversal_residual

  candidate-ok :
      (a : DecisionAction) (p : f.Real) (m : CostModel f)
      → laws.InUnit p
      → IsCostModel f laws m
      → (c : DecisionCandidate f) × (candidate f a (expected_cost f a p m) ≡ ok c)
  candidate-ok a p m hp v =
      candidate_nonneg f a (expected_cost f a p m) (expected_cost-IsNonneg a p m hp v)

  candidates_of-ok :
      (p : f.Real) (m : CostModel f) (wanted : List DecisionAction)
      → laws.InUnit p
      → IsCostModel f laws m
      → (cs : List (DecisionCandidate f)) × (candidates_of f p m wanted ≡ ok cs)
  unfolding candidates_of
  candidates_of-ok p m [] hp v = ([], refl)
  candidates_of-ok p m (a ∷ rest) hp v =
      let (c, made) = candidate-ok a p m hp v in
      let (cs, others) = candidates_of-ok p m rest hp v in (c ∷ cs, rw (made, others) refl)

  actions_of-nonempty : (s : Setting f) → actions_of f s ≢ []
  unfolding allowed_actions_for_tier candidate_actions
  actions_of-nonempty s = ground arith

  answer_from-ok :
      (s : Setting f) (cs : List (DecisionCandidate f))
      → actions f cs ≡ actions_of f s
      → (answer : DecisionResponse f) × (answer_from f s cs ≡ ok answer)
  unfolding answer_from
  answer_from-ok s [] h = absurd (actions_of-nonempty s (sym h))
  answer_from-ok s (c ∷ cs) h = (_, refl)

  cost_response-answer :
      (s : Setting f) (cs : List (DecisionCandidate f))
      → candidates_of f (f.true_div s.request.risk_score 100) s.request.cost_model (actions_of f s)
        ≡ ok cs
      → cost_response f s ≡ answer_from f s cs
  unfolding cost_response
  cost_response-answer s cs made = rw (cost_response, made) refl

  forced_response-candidate :
      (s : Setting f) (x : Forced) (c : DecisionCandidate f)
      → candidate f x.action
          (expected_cost f x.action (f.true_div s.request.risk_score 100) s.request.cost_model)
        ≡ ok c
      → (answer : DecisionResponse f) × (forced_response f s x ≡ ok answer)
  unfolding forced_response
  forced_response-candidate s x c made = (
    respond f s c x.reason (c ∷ []) (if x.with_job then s.job_id else none) x.escalation_required,
    rw (forced_response, made) refl,
  )

  cost_response-ok :
      (s : Setting f)
      → s.request.risk_score ≤ 100
      → IsCostModel f laws s.request.cost_model
      → (answer : DecisionResponse f) × (cost_response f s ≡ ok answer)
  cost_response-ok s score v =
      let p = f.true_div s.request.risk_score 100 in
      let (cs, made) =
        candidates_of-ok p s.request.cost_model (actions_of f s)
          (laws.fraction s.request.risk_score 100 score (omega arith)) v in
      let (answer, h) = answer_from-ok s cs (candidates_of-actions f p _ _ cs made) in
      (answer, cost_response-answer s cs made ∙ h)

  forced_response-ok :
      (s : Setting f) (x : Forced)
      → s.request.risk_score ≤ 100
      → IsCostModel f laws s.request.cost_model
      → (answer : DecisionResponse f) × (forced_response f s x ≡ ok answer)
  forced_response-ok s x score v =
      let p = f.true_div s.request.risk_score 100 in
      let (c, made) =
        candidate-ok x.action p s.request.cost_model
          (laws.fraction s.request.risk_score 100 score (omega arith)) v in
      forced_response-candidate s x c made

  decide_setting-ok :
      (s : Setting f)
      → s.request.risk_score ≤ 100
      → IsCostModel f laws s.request.cost_model
      → (answer : DecisionResponse f) × (decide_setting f s ≡ ok answer)
  decide_setting-ok s score v = elim (Option-cases (hard_control f s.request s.tier s.path)) [
    | inl e ↦
        let (answer, h) = cost_response-ok s score v in (answer, decide_setting-cost f s e ∙ h)
    | inr (x, e) ↦
        let (answer, h) = forced_response-ok s x score v in
        (answer, decide_setting-forced f s x e ∙ h)
  ]

  -- Under the laws of amounts, a request with a risk tier, a score of at most 100 and a cost model
  -- of amounts and fractions is answered: no assertion fails, no candidate is refused for its
  -- cost, and there is a candidate.
  pub decide-IsOk :
      (r : DecisionRequest f) (now : ℕ) (job_hex : String) (tier : RiskTier)
      → r.risk_tier ≡ some tier
      → r.risk_score ≤ 100
      → IsCostModel f laws r.cost_model
      → IsOk (decide f r now job_hex)
  unfolding decide
  decide-IsOk r now job_hex tier given score v =
      let (policy, found, same) = policy_for_tier-total tier in
      rw (given, found) (ok-IsOk _ (decide_setting-ok _ score v))
