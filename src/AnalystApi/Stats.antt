-- ===== src/AnalystApi/Stats.antt =====
-- The statistics of the verdicts, services/analyst_api/veripay_analyst_api/service.py.
use veri_pay.AnalystApi.{Decision, decision_eq}
use veri_pay.AnalystApi.Adjustments.{benign_labels, confirmed_labels, is_benign, is_confirmed_fraud}
use veri_pay.AnalystApi.Assessment.{Setup}
use veri_pay.AnalystApi.Feedback.{
  FeedbackRow, bucket_of, feedback_stats, verdict_clears, verdict_confirms,
}
use veri_pay.AnalystApi.Profiles.{StoredFeedback}
use veri_pay.AnalystApi.Service.{Orchestrator}
use veri_pay.Common.{
  Bool, Bool-cases, List, String, [], arith, contains, count_if, false, inl, inr, length, list_eq,
  map, nat_eq, option_eq, refl, string_eq, sum, true, ℕ, ◌+◌, ◌==◌, ◌∷◌, ◌≡◌, ◌≤◌, ◌⊎◌,
}
use veri_pay.DecisionEngine.Float.{Float}
use veri_pay.Enums.Dispute.{dispute_reason_eq, dispute_status_eq}
use veri_pay.Enums.Payment.{
  channel_eq, payment_rail_eq, processing_path_eq, verification_outcome_eq,
}
use veri_pay.Enums.Risk.{decision_action_eq, risk_band_eq, risk_tier_eq}
use veri_pay.Enums.Token.{token_status_eq}
use veri_pay.Enums.Trust.{
  device_platform_eq, device_trust_state_eq, gpv_outcome_eq, sca_exemption_eq,
}

module _ (f : Float) (u : Setup f) where
  -- How often a test holds in the four buckets.
  abbrev pub in_buckets : (StoredFeedback → Bool) → List StoredFeedback → ℕ
  in_buckets p rs =
      count_if p (bucket_of f u Decision.block rs)
      + count_if p (bucket_of f u Decision.review_stealth rs)
      + count_if p (bucket_of f u Decision.review_unusual rs)
      + count_if p (bucket_of f u Decision.pass rs)

  in_buckets-count :
      (p : StoredFeedback → Bool) (rs : List StoredFeedback) → in_buckets p rs ≡ count_if p rs
  in_buckets-count p [] = omega arith
  in_buckets-count p (r ∷ rs) = elim (decision_cases r.decision) [
    | inl e ↦ rw e (omega (arith, in_buckets-count p rs))
    | inr (inl e) ↦ rw e (omega (arith, in_buckets-count p rs))
    | inr (inr (inl e)) ↦ rw e (omega (arith, in_buckets-count p rs))
    | inr (inr (inr e)) ↦ rw e (omega (arith, in_buckets-count p rs))
  ]
    where
      decision_cases :
          (d : Decision)
          → (d ≡ Decision.block)
            ⊎ (d ≡ Decision.review_stealth)
            ⊎ (d ≡ Decision.review_unusual)
            ⊎ (d ≡ Decision.pass)
      decision_cases Decision.block = inl refl
      decision_cases Decision.review_stealth = inr (inl refl)
      decision_cases Decision.review_unusual = inr (inr (inl refl))
      decision_cases Decision.pass = inr (inr (inr refl))

  length-count : (rs : List StoredFeedback) → length rs ≡ count_if (λ (r : StoredFeedback). true) rs
  length-count [] = refl
  length-count (r ∷ rs) = omega (arith, length-count rs)

  confirms-clears :
      (n : String) → contains n confirmed_labels ≡ true → contains n benign_labels ≡ false
  confirms-clears n h = elim (Bool-cases (n == "confirmed_fraud")) [
    | inl e ↦ let same = (string_eq.beq_iff n "confirmed_fraud").0 e in rw same refl
    | inr e ↦ elim (Bool-cases (n == "confirmed_fraud?")) [
      | inl g ↦ let same = (string_eq.beq_iff n "confirmed_fraud?").0 g in rw same refl
      | inr g ↦ absurd (neither (rw (e, g) at h))
    ]
  ]
    where
      neither : false ≡ true → ⊥
      neither q = ground arith

  -- No verdict confirms and clears.
  counts-le :
      (rs : List StoredFeedback)
      → count_if (verdict_confirms f u) rs + count_if (verdict_clears f u) rs ≤ length rs
  unfolding is_confirmed_fraud is_benign
  counts-le [] = omega arith
  counts-le (r ∷ rs) = elim (Bool-cases (verdict_confirms f u r)) [
    | inl e ↦
        let clear = confirms-clears (u.tools.normalize r.analyst_decision) e in
        rw (e, clear) (omega (arith, counts-le rs))
    | inr e ↦ rw e (elim (Bool-cases (verdict_clears f u r)) [
      | inl g ↦ rw g (omega (arith, counts-le rs))
      | inr g ↦ rw g (omega (arith, counts-le rs))
    ])
  ]

  -- The statistics add up: the four rows review every recorded verdict once, their confirmed frauds are
  -- the confirmed frauds of the total, and the confirmed frauds of the total and the rows' false alarms
  -- together are no more than the verdicts.
  pub feedback_stats-total :
      (o : Orchestrator f)
      → let s = feedback_stats f u o in
        (sum (map (λ (r : FeedbackRow). r.total_reviewed) s.feedback_by_decision)
          ≡ s.total_feedback)
        × (sum (map (λ (r : FeedbackRow). r.confirmed_fraud) s.feedback_by_decision)
            ≡ s.confirmed_fraud)
        × (s.confirmed_fraud + sum (map (λ (r : FeedbackRow). r.false_alarm) s.feedback_by_decision)
            ≤ s.total_feedback)
  unfolding feedback_stats
  feedback_stats-total o =
      let rs = o.store.feedback in
      let every_one = λ (r : StoredFeedback). true in
      (
        omega (
          arith,
          length-count (bucket_of f u Decision.block rs),
          length-count (bucket_of f u Decision.review_stealth rs),
          length-count (bucket_of f u Decision.review_unusual rs),
          length-count (bucket_of f u Decision.pass rs),
          in_buckets-count every_one rs,
          length-count rs,
        ),
        omega (arith, in_buckets-count (verdict_confirms f u) rs),
        omega (arith, in_buckets-count (verdict_clears f u) rs, counts-le rs),
      )
