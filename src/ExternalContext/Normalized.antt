-- ===== src/ExternalContext/Normalized.antt =====
-- The score of `evaluate_external_context`: between the signals, and neutral without them.
use veri_pay.Common.{
  All, Bool, Bool-cases, Option, Option-cases, [], arith, false, get_or, inl, inr, is_some, none,
  refl, some, some-injective, subst, sum, sym, true, ℕ, ◌*◌, ◌-◌, ◌||◌, ◌∙◌, ◌∷◌, ◌≡◌, ◌≤◌, ◌⊎◌,
}
use veri_pay.DecisionEngine.Float.{Float}
use veri_pay.ExternalContext.{
  ExternalAvailability, ExternalContextRequest, ExternalContextResponse, evaluate_external_context,
  given, neutral, normalized, round_quotient, signals, too_old,
}

-- The value lies between the two bounds.
abbrev pub Within : ℕ → ℕ → ℕ → Type 0
Within lo hi x = (lo ≤ x) × (x ≤ hi)

mean_of_one :
    (lo hi a : ℕ) → All (Within lo hi) (a ∷ []) → Within lo hi (round_quotient (sum (a ∷ [])) 1)
unfolding round_quotient
mean_of_one lo hi a h = ground arith

mean_of_two :
    (lo hi a b : ℕ)
    → All (Within lo hi) (a ∷ b ∷ [])
    → Within lo hi (round_quotient (sum (a ∷ b ∷ [])) 2)
unfolding round_quotient
mean_of_two lo hi a b h = ground arith

mean_of_three :
    (lo hi a b c : ℕ)
    → All (Within lo hi) (a ∷ b ∷ c ∷ [])
    → Within lo hi (round_quotient (sum (a ∷ b ∷ c ∷ [])) 3)
unfolding round_quotient
mean_of_three lo hi a b c h = ground arith

-- The score is not given, or it lies between the bounds.
abbrev pub GivenWithin : ℕ → ℕ → Option ℕ → Type 0
GivenWithin lo hi none = Unit
GivenWithin lo hi (some x) = Within lo hi x

abbrev pub any_given : Option ℕ → Option ℕ → Option ℕ → Bool
any_given e s g = is_some e || is_some s || is_some g

unavailable_not_available : ¬ (ExternalAvailability.unavailable ≡ ExternalAvailability.available)
unavailable_not_available e = cc

stale_not_available : ¬ (ExternalAvailability.stale ≡ ExternalAvailability.available)
stale_not_available e = cc

module _ (f : Float) where
  -- Some score is given and the response is available with a score in the bounds, or none is given and
  -- the response is neutral.
  abbrev pub IsMean : ℕ → ℕ → Bool → ExternalContextResponse f → Type 0
  IsMean lo hi given_any a =
      ((given_any ≡ true)
        × (a.availability ≡ ExternalAvailability.available)
        × Within lo hi a.normalized_score)
      ⊎ ((given_any ≡ false)
          × ¬ (a.availability ≡ ExternalAvailability.available)
          × (a.normalized_score ≡ 50))

  normalized-IsMean :
      (r : ExternalContextRequest) (observed lo hi : ℕ) (e s g : Option ℕ)
      → GivenWithin lo hi e
      → GivenWithin lo hi s
      → GivenWithin lo hi g
      → IsMean lo hi (any_given e s g) (normalized f r observed (given (e ∷ s ∷ g ∷ [])))
  normalized-IsMean r observed lo hi none none none x y z =
      inr (refl, unavailable_not_available, refl)
  normalized-IsMean r observed lo hi none none (some c) x y z =
      inl (refl, refl, mean_of_one lo hi c (z, tt))
  normalized-IsMean r observed lo hi none (some b) none x y z =
      inl (refl, refl, mean_of_one lo hi b (y, tt))
  normalized-IsMean r observed lo hi none (some b) (some c) x y z =
      inl (refl, refl, mean_of_two lo hi b c (y, (z, tt)))
  normalized-IsMean r observed lo hi (some a) none none x y z =
      inl (refl, refl, mean_of_one lo hi a (x, tt))
  normalized-IsMean r observed lo hi (some a) none (some c) x y z =
      inl (refl, refl, mean_of_two lo hi a c (x, (z, tt)))
  normalized-IsMean r observed lo hi (some a) (some b) none x y z =
      inl (refl, refl, mean_of_two lo hi a b (x, (y, tt)))
  normalized-IsMean r observed lo hi (some a) (some b) (some c) x y z =
      inl (refl, refl, mean_of_three lo hi a b c (x, (y, (z, tt))))

  -- The request was observed not longer ago than its maximal age, and some score is given.
  abbrev pub IsUsable : ExternalContextRequest → ℕ → Type 0
  IsUsable r clock =
      (observed : ℕ) × (r.observed_at ≡ some observed)
      × (get_or r.now clock - observed ≤ 1000000 * r.max_age_seconds)
      × (any_given r.economic_risk_score r.seasonal_risk_score r.geographic_risk_score ≡ true)

  abbrev pub IsOutcome : ExternalContextRequest → ℕ → ℕ → ℕ → ExternalContextResponse f → Type 0
  IsOutcome r clock lo hi a =
      (IsUsable r clock
        × (a.availability ≡ ExternalAvailability.available)
        × Within lo hi a.normalized_score)
      ⊎ (¬ IsUsable r clock
          × ¬ (a.availability ≡ ExternalAvailability.available)
          × (a.normalized_score ≡ 50))

  unobserved : (r : ExternalContextRequest) (clock : ℕ) → r.observed_at ≡ none → ¬ IsUsable r clock
  unobserved r clock e (observed, g, h, k) = clash (sym e ∙ g)
    where
      clash : ◌≡◌ {A = Option ℕ} none (some observed) → ⊥
      clash q = cc

  late :
      (r : ExternalContextRequest) (clock observed : ℕ)
      → r.observed_at ≡ some observed
      → too_old f r clock observed ≡ true
      → ¬ IsUsable r clock
  late r clock observed e old (o, g, h, k) = overdue (
      subst (λ i. get_or r.now clock - i ≤ 1000000 * r.max_age_seconds)
        (some-injective o observed (sym g ∙ e)) h)
    where
      overdue : get_or r.now clock - observed ≤ 1000000 * r.max_age_seconds → ⊥
      overdue q = ground (arith, old, q)

  silent :
      (r : ExternalContextRequest) (clock : ℕ)
      → any_given r.economic_risk_score r.seasonal_risk_score r.geographic_risk_score ≡ false
      → ¬ IsUsable r clock
  silent r clock none_given (o, g, h, k) = ground (arith, sym none_given ∙ k)

  in_time :
      (r : ExternalContextRequest) (clock observed : ℕ)
      → too_old f r clock observed ≡ false
      → get_or r.now clock - observed ≤ 1000000 * r.max_age_seconds
  in_time r clock observed fresh = ground (arith, fresh)

  fresh-IsOutcome :
      (r : ExternalContextRequest) (clock observed lo hi : ℕ) (a : ExternalContextResponse f)
      → r.observed_at ≡ some observed
      → too_old f r clock observed ≡ false
      → IsMean lo hi
          (any_given r.economic_risk_score r.seasonal_risk_score r.geographic_risk_score)
          a
      → IsOutcome r clock lo hi a
  fresh-IsOutcome r clock observed lo hi a e fresh (inl (some_given, answered, within)) =
      inl ((observed, e, in_time r clock observed fresh, some_given), answered, within)
  fresh-IsOutcome r clock observed lo hi a e fresh (inr (none_given, away, fifty)) =
      inr (silent r clock none_given, away, fifty)

  evaluate_external_context_unobserved :
      (r : ExternalContextRequest) (clock : ℕ)
      → r.observed_at ≡ none
      → evaluate_external_context f r clock
        ≡ neutral f r ExternalAvailability.unavailable
            (f.of_nat 0)
            "EXTERNAL_CONTEXT_UNAVAILABLE"
            none
  unfolding evaluate_external_context
  evaluate_external_context_unobserved r clock e = rw (e, evaluate_external_context) refl

  evaluate_external_context_stale :
      (r : ExternalContextRequest) (clock observed : ℕ)
      → r.observed_at ≡ some observed
      → too_old f r clock observed ≡ true
      → evaluate_external_context f r clock
        ≡ neutral f r ExternalAvailability.stale
            (f.true_div 1 10)
            "EXTERNAL_CONTEXT_STALE"
            (some observed)
  unfolding evaluate_external_context
  evaluate_external_context_stale r clock observed e old =
      rw (e, evaluate_external_context) (rw (old, evaluate_external_context) refl)

  evaluate_external_context_fresh :
      (r : ExternalContextRequest) (clock observed : ℕ)
      → r.observed_at ≡ some observed
      → too_old f r clock observed ≡ false
      → evaluate_external_context f r clock ≡ normalized f r observed (signals r)
  unfolding evaluate_external_context
  evaluate_external_context_fresh r clock observed e fresh =
      rw (e, evaluate_external_context) (rw (fresh, evaluate_external_context) refl)

  -- Whatever bounds the given scores of a request have: a request that was observed not longer ago than
  -- its maximal age, and that gives some score, has an available response whose score lies between the
  -- same bounds; any other has a response that is not available, with the neutral score 50.
  pub evaluate_external_context-IsOutcome :
      (r : ExternalContextRequest) (clock lo hi : ℕ)
      → GivenWithin lo hi r.economic_risk_score
      → GivenWithin lo hi r.seasonal_risk_score
      → GivenWithin lo hi r.geographic_risk_score
      → IsOutcome r clock lo hi (evaluate_external_context f r clock)
  evaluate_external_context-IsOutcome r clock lo hi x y z = elim (Option-cases r.observed_at) [
    | inl e ↦
        subst (IsOutcome r clock lo hi) (sym (evaluate_external_context_unobserved r clock e))
          (inr (unobserved r clock e, unavailable_not_available, refl))
    | inr (observed, e) ↦ elim (Bool-cases (too_old f r clock observed)) [
      | inl old ↦
          subst (IsOutcome r clock lo hi)
            (sym (evaluate_external_context_stale r clock observed e old))
            (inr (late r clock observed e old, stale_not_available, refl))
      | inr fresh ↦
          subst (IsOutcome r clock lo hi)
            (sym (evaluate_external_context_fresh r clock observed e fresh))
            (fresh-IsOutcome r clock observed lo hi (normalized f r observed (signals r)) e fresh (
              normalized-IsMean r observed lo hi r.economic_risk_score r.seasonal_risk_score
                r.geographic_risk_score x y z))
    ]
  ]
