-- ===== src/DecisionEngine/Safety.antt =====
-- When `decide` answers ALLOW.
use veri_pay.Common.{
  >>=-eq-ok, Bool, Bool-cases, List, Option-cases, String, [], ap, ap₂, arith, contains, false,
  get_or, inl, inr, none, ok, or_raise-eq-ok, raise_as-eq-ok, refl, some, sym, true, ℕ, ◌==◌, ◌∙◌,
  ◌∷◌, ◌≡◌, ◌≢◌, ◌⊎◌,
}
use veri_pay.DecisionEngine.Control.{Forced, hard_control, outcome_control}
use veri_pay.DecisionEngine.Decide.{
  Setting, actions_of, answer_from, candidate, candidate_actions, candidates_of, cheapest,
  cost_response, decide, decide_setting, expected_cost, forced_response, matrix_mode, select,
}
use veri_pay.DecisionEngine.Float.{Float}
use veri_pay.DecisionEngine.Models.{
  DecisionCandidate, DecisionRequest, DecisionResponse, assertion_failed, policy_failed,
}
use veri_pay.DecisionEngine.Selection.{
  actions, candidate-action, candidates_of-actions, cheapest-contains, ok_inj, select-ne-allow,
  select_legacy,
}
use veri_pay.Enums.Payment.{ProcessingPath, VerificationOutcome}
use veri_pay.Enums.Risk.{
  DecisionAction, RiskBand, RiskTier, decision_action_eq, risk_tier_beq_iff, risk_tier_eq,
}
use veri_pay.RiskPolicy.{allowed_actions_for_tier, policy_for_tier, tier_from_band}

-- No hard control stands against the payment.
abbrev pub IsCleared : (f : Float) → DecisionRequest f → Type 0
IsCleared f r =
    (r.is_reversal ≡ false) × (r.compliance_blocked ≡ false) × (r.evidence_available ≡ true)

-- The tier is NO_RISK, or LOW by the band APPROVE.
abbrev pub IsLowRisk : (f : Float) → DecisionRequest f → RiskTier → Type 0
IsLowRisk f r tier =
    (tier ≡ RiskTier.no_risk) ⊎ ((r.risk_band ≡ some RiskBand.approve) × (tier ≡ RiskTier.low))

-- The payment is verified, or its risk is low and no verification is open.
abbrev pub MayAllow : (f : Float) → DecisionRequest f → RiskTier → Type 0
MayAllow f r tier =
    (r.verification_outcome ≡ VerificationOutcome.approved)
    ⊎ ((r.verification_outcome ≡ VerificationOutcome.pending) × IsLowRisk f r tier)

outcome_allow :
    (outcome : VerificationOutcome) (tier : RiskTier) (x : Forced)
    → outcome_control outcome tier ≡ some x
    → x.action ≡ DecisionAction.allow
    → outcome ≡ VerificationOutcome.approved
unfolding outcome_control
outcome_allow outcome tier x h a = ground arith

outcome_none :
    (outcome : VerificationOutcome) (tier : RiskTier)
    → outcome_control outcome tier ≡ none
    → outcome ≡ VerificationOutcome.pending
unfolding outcome_control
outcome_none outcome tier h = ground arith

candidate_actions-allow :
    (band : RiskBand)
    → contains DecisionAction.allow (candidate_actions band) ≡ true
    → band ≡ RiskBand.approve
unfolding candidate_actions
candidate_actions-allow band h = ground arith

risk_tier_cases : (t : RiskTier) → (t ≡ RiskTier.no_risk) ⊎ (t ≢ RiskTier.no_risk)
risk_tier_cases t = elim (Bool-cases (t == RiskTier.no_risk)) [
  | inl e ↦ inl ((risk_tier_beq_iff t RiskTier.no_risk).0 e)
  | inr e ↦ inr (λ h. cc (e, (risk_tier_beq_iff t RiskTier.no_risk).1 h))
]

module _ (f : Float) where
  hard_control-allow :
      (r : DecisionRequest f) (tier : RiskTier) (path : ProcessingPath) (x : Forced)
      → hard_control f r tier path ≡ some x
      → x.action ≡ DecisionAction.allow
      → IsCleared f r × (outcome_control r.verification_outcome tier ≡ some x)
  unfolding hard_control
  hard_control-allow r tier path x h a = ground arith

  hard_control-none :
      (r : DecisionRequest f) (tier : RiskTier) (path : ProcessingPath)
      → hard_control f r tier path ≡ none
      → IsCleared f r × (outcome_control r.verification_outcome tier ≡ none)
  unfolding hard_control
  hard_control-none r tier path h = ground arith

  forced_response-action :
      (s : Setting f) (x : Forced) (answer : DecisionResponse f)
      → forced_response f s x ≡ ok answer
      → answer.action ≡ x.action
  unfolding forced_response
  forced_response-action s x answer h =
      let p = f.true_div s.request.risk_score 100 in
      let (c, made, h₁) =
        >>=-eq-ok (candidate f x.action (expected_cost f x.action p s.request.cost_model)) _ h in
      ap (λ a. a.action) (sym (ok_inj h₁)) ∙ candidate-action f x.action _ c made

  answer_from-eq-ok :
      (s : Setting f) (cs : List (DecisionCandidate f)) (answer : DecisionResponse f)
      → answer_from f s cs ≡ ok answer
      → (c : DecisionCandidate f) × (ds : List (DecisionCandidate f)) × (cs ≡ c ∷ ds)
        × (answer.action ≡ (select f (matrix_mode f s.request s.tier) s.tier c ds).action)
  unfolding answer_from
  answer_from-eq-ok s [] answer h = cc
  answer_from-eq-ok s (c ∷ ds) answer h = (c, ds, refl, ap (λ a. a.action) (sym (ok_inj h)))

  pub cost_response-eq-ok :
      (s : Setting f) (answer : DecisionResponse f)
      → cost_response f s ≡ ok answer
      → (c : DecisionCandidate f) × (ds : List (DecisionCandidate f)) × (actions f (c ∷ ds)
          ≡ actions_of f s)
        × (answer.action ≡ (select f (matrix_mode f s.request s.tier) s.tier c ds).action)
  unfolding cost_response
  cost_response-eq-ok s answer h =
      let (cs, made, h₁) =
        >>=-eq-ok
          (candidates_of f (f.true_div s.request.risk_score 100) s.request.cost_model
            (actions_of f s))
          _ h in
      let (c, ds, split, same) = answer_from-eq-ok s cs answer h₁ in
      (c, ds, ap (actions f) (sym split) ∙ candidates_of-actions f _ _ _ cs made, same)

  actions_of-matrix :
      (s : Setting f)
      → matrix_mode f s.request s.tier ≡ true
      → actions_of f s ≡ allowed_actions_for_tier s.tier
  actions_of-matrix s m = rw (m) refl

  actions_of-legacy :
      (s : Setting f)
      → matrix_mode f s.request s.tier ≡ false
      → actions_of f s ≡ candidate_actions (get_or s.request.risk_band RiskBand.approve)
  actions_of-legacy s m = rw (m) refl

  matrix_mode-band :
      (r : DecisionRequest f) (tier : RiskTier)
      → matrix_mode f r tier ≡ false
      → get_or r.risk_band RiskBand.approve ≡ RiskBand.approve
      → (r.risk_band ≡ some RiskBand.approve) × (tier ≡ RiskTier.low)
  unfolding tier_from_band
  matrix_mode-band r tier m h = ground arith

  legacy_allow :
      (s : Setting f) (c : DecisionCandidate f) (ds : List (DecisionCandidate f))
      → matrix_mode f s.request s.tier ≡ false
      → actions f (c ∷ ds) ≡ actions_of f s
      → (select f false s.tier c ds).action ≡ DecisionAction.allow
      → (s.request.risk_band ≡ some RiskBand.approve) × (s.tier ≡ RiskTier.low)
  legacy_allow s c ds m wanted h =
      let chosen : (cheapest f c ds).action ≡ DecisionAction.allow =
        ap (λ b. b.action) (sym (select_legacy f s.tier c ds)) ∙ h in
      let band = get_or s.request.risk_band RiskBand.approve in
      let offered : contains DecisionAction.allow (candidate_actions band) ≡ true =
        ap₂ contains (sym chosen) (sym (wanted ∙ actions_of-legacy s m))
        ∙ cheapest-contains f c ds in
      matrix_mode-band s.request s.tier m (candidate_actions-allow band offered)

  -- Behind the hard controls, ALLOW needs the tier NO_RISK, or LOW by the band APPROVE.
  cost_response-allow :
      (s : Setting f) (answer : DecisionResponse f)
      → cost_response f s ≡ ok answer
      → answer.action ≡ DecisionAction.allow
      → IsLowRisk f s.request s.tier
  cost_response-allow s answer h a =
      let (c, ds, wanted, same) = cost_response-eq-ok s answer h in
      let chosen : (m : Bool)
          → matrix_mode f s.request s.tier ≡ m
          → (select f m s.tier c ds).action ≡ DecisionAction.allow =
        λ m e. ap (λ b. (select f b s.tier c ds).action) (sym e) ∙ sym same ∙ a in
      elim (risk_tier_cases s.tier) [
        | inl e ↦ inl e
        | inr e ↦ elim (Bool-cases (matrix_mode f s.request s.tier)) [
          | inl m ↦
              absurd
                (select-ne-allow f s.tier c ds e (wanted ∙ actions_of-matrix s m) (chosen true m))
          | inr m ↦ inr (legacy_allow s c ds m wanted (chosen false m))
        ]
      ]

  pub decide_setting-forced :
      (s : Setting f) (x : Forced)
      → hard_control f s.request s.tier s.path ≡ some x
      → decide_setting f s ≡ forced_response f s x
  unfolding decide_setting
  decide_setting-forced s x h = rw (h, decide_setting) refl

  pub decide_setting-cost :
      (s : Setting f)
      → hard_control f s.request s.tier s.path ≡ none
      → decide_setting f s ≡ cost_response f s
  unfolding decide_setting
  decide_setting-cost s h = rw (h, decide_setting) refl

  decide_setting-allow :
      (s : Setting f) (answer : DecisionResponse f)
      → decide_setting f s ≡ ok answer
      → answer.action ≡ DecisionAction.allow
      → IsCleared f s.request × MayAllow f s.request s.tier
  decide_setting-allow s answer h a = elim (Option-cases (hard_control f s.request s.tier s.path)) [
    | inl e ↦
        let (cleared, open_outcome) = hard_control-none s.request s.tier s.path e in
        (
          cleared,
          inr (
            outcome_none _ s.tier open_outcome,
            cost_response-allow s answer (sym (decide_setting-cost s e) ∙ h) a,
          ),
        )
    | inr (x, e) ↦
        let same : answer.action ≡ x.action =
          forced_response-action s x answer (sym (decide_setting-forced s x e) ∙ h) in
        let (cleared, held) = hard_control-allow s.request s.tier s.path x e (sym same ∙ a) in
        (cleared, inl (outcome_allow _ s.tier x held (sym same ∙ a)))
  ]

  -- If `decide` answers ALLOW, then the request has a tier, it is no reversal, no compliance block
  -- stands against it, its evidence is available, and either its verification is approved, or its
  -- verification is pending and its tier is NO_RISK, or LOW with the risk band APPROVE.
  pub decide-allow :
      (r : DecisionRequest f) (now : ℕ) (job_hex : String) (answer : DecisionResponse f)
      → decide f r now job_hex ≡ ok answer
      → answer.action ≡ DecisionAction.allow
      → (tier : RiskTier) × (r.risk_tier ≡ some tier) × IsCleared f r × MayAllow f r tier
  unfolding decide
  decide-allow r now job_hex answer h a =
      let (tier, given, h₁) = or_raise-eq-ok r.risk_tier assertion_failed _ h in
      let (policy, found, h₂) = raise_as-eq-ok policy_failed (policy_for_tier tier) _ h₁ in
      let (cleared, may) = decide_setting-allow _ answer h₂ a in (tier, given, cleared, may)
