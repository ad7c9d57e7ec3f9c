-- ===== src/DecisionEngine/Selection.antt =====
-- Which candidate the decision engine selects: one of the list, and none that skips the friction.
use veri_pay.Common.{
  >>=-eq-ok, Bool, Bool-cases, List, Result, [], ap, ap₂, arith, beq_refl, contains, false, inl,
  inr, ok, refl, some, sym, true, ◌==◌, ◌||◌, ◌∙◌, ◌∷◌, ◌≡◌, ◌≢◌,
}
use veri_pay.DecisionEngine.Decide.{
  candidate, candidates_of, cheapest, expected_cost, first_challenge, select,
}
use veri_pay.DecisionEngine.Float.{Float}
use veri_pay.DecisionEngine.Models.{CostModel, DecisionCandidate}
use veri_pay.Enums.Risk.{DecisionAction, RiskTier, decision_action_beq_iff, decision_action_eq}
use veri_pay.RiskPolicy.{allowed_actions_for_tier}

pub ok_inj : {E A : Type 0} {a b : A} → ◌≡◌ {A = Result E A} (ok a) (ok b) → a ≡ b
ok_inj h = cc

or_later : (p q : Bool) → q ≡ true → (p || q) ≡ true
or_later p q h = ground arith

or_here : (p q : Bool) → p ≡ true → (p || q) ≡ true
or_here p q h = ground arith

or_between : (p q r : Bool) → (p || q) ≡ true → (p || (r || q)) ≡ true
or_between p q r h = ground arith

contains_later :
    (a b : DecisionAction) (l : List DecisionAction)
    → contains a l ≡ true
    → contains a (b ∷ l) ≡ true
contains_later a b l h = or_later (a == b) (contains a l) h

contains_between :
    (a b c : DecisionAction) (l : List DecisionAction)
    → contains a (b ∷ l) ≡ true
    → contains a (b ∷ c ∷ l) ≡ true
contains_between a b c l h = or_between (a == b) (contains a l) (a == c) h

not_challenge :
    (a : DecisionAction)
    → (DecisionAction.challenge == a) ≡ false
    → (a == DecisionAction.challenge) ≡ false
not_challenge a h = ground arith

action_differs : (a b : DecisionAction) → (a == b) ≡ false → a ≢ b
action_differs a b h = ground arith

-- The tiers above NO_RISK that offer ALLOW offer CHALLENGE.
challenge_offered :
    (tier : RiskTier) (a : DecisionAction)
    → tier ≢ RiskTier.no_risk
    → a ≡ DecisionAction.allow
    → contains a (allowed_actions_for_tier tier) ≡ true
    → contains DecisionAction.challenge (allowed_actions_for_tier tier) ≡ true
unfolding allowed_actions_for_tier
challenge_offered tier a risky allowed offered = ground arith

module _ (f : Float) where
  abbrev pub actions : List (DecisionCandidate f) → List DecisionAction
  actions [] = []
  actions (c ∷ cs) = c.action ∷ actions cs

  pub candidate-action :
      (a : DecisionAction) (cost : f.Real) (c : DecisionCandidate f)
      → candidate f a cost ≡ ok c
      → c.action ≡ a
  unfolding candidate
  candidate-action a cost c h = ground arith

  pub candidates_of-actions :
      (p : f.Real) (m : CostModel f) (wanted : List DecisionAction)
      (cs : List (DecisionCandidate f))
      → candidates_of f p m wanted ≡ ok cs
      → actions cs ≡ wanted
  unfolding candidates_of
  candidates_of-actions p m [] [] h = refl
  candidates_of-actions p m [] (c ∷ cs) h = cc
  candidates_of-actions p m (a ∷ rest) cs h =
      let (c, made, h₁) = >>=-eq-ok (candidate f a (expected_cost f a p m)) _ h in
      let (ds, others, h₂) = >>=-eq-ok (candidates_of f p m rest) _ h₁ in
      let tail : actions ds ≡ rest = candidates_of-actions p m rest ds others in
      let head : c.action ≡ a = candidate-action a (expected_cost f a p m) c made in
      ap actions (sym (ok_inj h₂)) ∙ ap₂ (λ x xs. x ∷ xs) head tail

  cheapest_later :
      (c d : DecisionCandidate f) (cs : List (DecisionCandidate f))
      → f.lt d.expected_cost_minor c.expected_cost_minor ≡ true
      → cheapest f c (d ∷ cs) ≡ cheapest f d cs
  unfolding cheapest
  cheapest_later c d cs h = rw (h) refl

  cheapest_kept :
      (c d : DecisionCandidate f) (cs : List (DecisionCandidate f))
      → f.lt d.expected_cost_minor c.expected_cost_minor ≡ false
      → cheapest f c (d ∷ cs) ≡ cheapest f c cs
  unfolding cheapest
  cheapest_kept c d cs h = rw (h) refl

  cheapest_one : (c : DecisionCandidate f) → cheapest f c [] ≡ c
  unfolding cheapest
  cheapest_one c = refl

  pub cheapest-contains :
      (c : DecisionCandidate f) (cs : List (DecisionCandidate f))
      → contains (cheapest f c cs).action (actions (c ∷ cs)) ≡ true
  cheapest-contains c [] = rw (cheapest_one c) (or_here _ _ (beq_refl c.action))
  cheapest-contains c (d ∷ cs) =
      elim (Bool-cases (f.lt d.expected_cost_minor c.expected_cost_minor)) [
        | inl e ↦
            ap (λ (b : DecisionCandidate f). contains b.action (actions (c ∷ d ∷ cs)))
              (cheapest_later c d cs e)
            ∙ contains_later (cheapest f d cs).action c.action (actions (d ∷ cs))
                (cheapest-contains d cs)
        | inr e ↦
            ap (λ (b : DecisionCandidate f). contains b.action (actions (c ∷ d ∷ cs)))
              (cheapest_kept c d cs e)
            ∙ contains_between (cheapest f c cs).action c.action d.action (actions cs)
                (cheapest-contains c cs)
      ]

  pub first_challenge-contains :
      (cs : List (DecisionCandidate f))
      → contains DecisionAction.challenge (actions cs) ≡ true
      → (c : DecisionCandidate f) × (first_challenge f cs ≡ some c)
        × (c.action ≡ DecisionAction.challenge)
  unfolding first_challenge
  first_challenge-contains [] h = cc
  first_challenge-contains (c ∷ cs) h = elim (Bool-cases (DecisionAction.challenge == c.action)) [
    | inl e ↦
        let same : c.action ≡ DecisionAction.challenge =
          sym ((decision_action_beq_iff DecisionAction.challenge c.action).0 e) in
        (c, rw ((decision_action_beq_iff c.action DecisionAction.challenge).1 same), same)
    | inr e ↦
        let (k, found, is_challenge) = first_challenge-contains cs (rw e at h) in
        (k, rw (not_challenge c.action e) found, is_challenge)
  ]

  -- What `select` returns, by the action of the cheapest candidate.
  select_kept :
      (matrix : Bool) (tier : RiskTier) (c : DecisionCandidate f) (cs : List (DecisionCandidate f))
      → (cheapest f c cs).action ≢ DecisionAction.allow
      → select f matrix tier c cs ≡ cheapest f c cs
  unfolding select
  select_kept matrix tier c cs h = ground arith

  pub select_legacy :
      (tier : RiskTier) (c : DecisionCandidate f) (cs : List (DecisionCandidate f))
      → select f false tier c cs ≡ cheapest f c cs
  unfolding select
  select_legacy tier c cs = ground arith

  select_challenged :
      (tier : RiskTier) (c k : DecisionCandidate f) (cs : List (DecisionCandidate f))
      → tier ≢ RiskTier.no_risk
      → (cheapest f c cs).action ≡ DecisionAction.allow
      → first_challenge f (c ∷ cs) ≡ some k
      → select f true tier c cs ≡ k
  unfolding select
  select_challenged tier c k cs risky allowed found = ground arith

  -- With the friction of a tier above NO_RISK the selected action is not ALLOW, if the candidates are
  -- those of the tier.
  pub select-ne-allow :
      (tier : RiskTier) (c : DecisionCandidate f) (cs : List (DecisionCandidate f))
      → tier ≢ RiskTier.no_risk
      → actions (c ∷ cs) ≡ allowed_actions_for_tier tier
      → (select f true tier c cs).action ≢ DecisionAction.allow
  select-ne-allow tier c cs risky same =
      let best = cheapest f c cs in
      elim (Bool-cases (best.action == DecisionAction.allow)) [
        | inr e ↦
            let other : best.action ≢ DecisionAction.allow =
              action_differs best.action DecisionAction.allow e in
            rw (select_kept true tier c cs other) other
        | inl e ↦
            let allowed = (decision_action_beq_iff best.action DecisionAction.allow).0 e in
            let offered : contains best.action (allowed_actions_for_tier tier) ≡ true =
              ap (λ l. contains best.action l) (sym same) ∙ cheapest-contains c cs in
            let (k, found, is_challenge) = first_challenge-contains (c ∷ cs) (
              ap (λ l. contains DecisionAction.challenge l) same
              ∙ challenge_offered tier best.action risky allowed offered) in
            rw (select_challenged tier c k cs risky allowed found)
              (λ (clash : k.action ≡ DecisionAction.allow). cc (is_challenge, clash))
      ]
