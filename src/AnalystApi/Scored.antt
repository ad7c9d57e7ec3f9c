-- ===== src/AnalystApi/Scored.antt =====
-- What services/analyst_api/veripay_analyst_api/service.py guarantees of its scores.
use veri_pay.AnalystApi.{Decision, decision_eq}
use veri_pay.AnalystApi.Assessment.{Setup, assess}
use veri_pay.AnalystApi.Profiles.{set_at}
use veri_pay.AnalystApi.Scoring.{
  ScoreError, ScoreResponse, TransactionInput, invalid_response, valid_response,
}
use veri_pay.AnalystApi.Service.{Orchestrator, alert_of, keep, score}
use veri_pay.Common.{
  Bool-cases, Option-cases, Result, [], ap, beq_refl, err, false, if◌then◌else◌, inl, inr, insert,
  list_eq, lookup, lookup-insert_same, nat_eq, none, ok, option_eq, refl, some, string_eq, sym,
  true, ◌++◌, ◌==◌, ◌∙◌, ◌∷◌, ◌≡◌, ◌⊎◌,
}
use veri_pay.DecisionEngine.Float.{Float}
use veri_pay.Enums.Dispute.{dispute_reason_eq, dispute_status_eq}
use veri_pay.Enums.Payment.{
  channel_eq, payment_rail_eq, processing_path_eq, verification_outcome_eq,
}
use veri_pay.Enums.Risk.{decision_action_eq, risk_band_eq, risk_tier_eq}
use veri_pay.Enums.Token.{token_status_eq}
use veri_pay.Enums.Trust.{
  device_platform_eq, device_trust_state_eq, gpv_outcome_eq, sca_exemption_eq,
}

module _ (f : Float) (u : Setup f) where
  -- The ways in which a score of a transaction that is not scored yet can end.
  pub score-cases :
      (tx : TransactionInput f) (o : Orchestrator f)
      → lookup tx.transaction_id o.scored ≡ none
      → ((e : ScoreError) × (assess f u tx o.store ≡ err e) × (score f u tx o ≡ (err e, o)))
        ⊎ ((r : ScoreResponse f) × (assess f u tx o.store ≡ ok r)
            × (score f u tx o ≡ keep f u tx r o))
  unfolding score
  score-cases tx o fresh = cases (assess f u tx o.store) refl
    where
      cases :
          (m : Result ScoreError (ScoreResponse f))
          → assess f u tx o.store ≡ m
          → ((e : ScoreError) × (assess f u tx o.store ≡ err e) × (score f u tx o ≡ (err e, o)))
            ⊎ ((r : ScoreResponse f) × (assess f u tx o.store ≡ ok r)
                × (score f u tx o ≡ keep f u tx r o))
      cases (err e) h = inl (e, h, rw (fresh, score) (rw (h, score) refl))
      cases (ok r) h = inr (r, h, rw (fresh, score) (rw (h, score) refl))

  pub score_found :
      (tx : TransactionInput f) (o : Orchestrator f) (r : ScoreResponse f)
      → lookup tx.transaction_id o.scored ≡ some r
      → score f u tx o ≡ (ok r, o)
  unfolding score
  score_found tx o r h = rw (h, score) refl

  -- What is kept of a response.
  pub keep-cases :
      (tx : TransactionInput f) (r : ScoreResponse f) (o : Orchestrator f)
      → ((valid_response f u.tools r ≡ false)
          × ((keep f u tx r o).0 ≡ err invalid_response)
          × ((keep f u tx r o).1.scored ≡ o.scored)
          × ((keep f u tx r o).1.lookup_by_customer ≡ o.lookup_by_customer)
          × ((keep f u tx r o).1.alerts ≡ o.alerts))
        ⊎ ((valid_response f u.tools r ≡ true)
            × ((keep f u tx r o).0 ≡ ok r)
            × ((keep f u tx r o).1.scored ≡ insert tx.transaction_id r o.scored)
            × ((keep f u tx r o).1.lookup_by_customer
                ≡ set_at tx.cc_num (some tx.transaction_id) o.lookup_by_customer)
            × ((keep f u tx r o).1.alerts ≡ (
                if r.decision == Decision.pass
                then o.alerts
                else o.alerts ++ alert_of f u tx r ∷ [])))
  unfolding keep
  keep-cases tx r o = elim (Bool-cases (valid_response f u.tools r)) [
    | inl e ↦ inr (e, rw (e, keep) refl, rw (e, keep) refl, rw (e, keep) refl, rw (e, keep) refl)
    | inr e ↦ inl (e, rw (e, keep) refl, rw (e, keep) refl, rw (e, keep) refl, rw (e, keep) refl)
  ]

  ok-injective :
      (r s : ScoreResponse f) → ◌≡◌ {A = Result ScoreError (ScoreResponse f)} (ok r) (ok s) → r ≡ s
  ok-injective r s h = cc

  -- A response that is returned is retained.
  pub score-stored :
      (tx : TransactionInput f) (o : Orchestrator f) (r : ScoreResponse f)
      → (score f u tx o).0 ≡ ok r
      → lookup tx.transaction_id (score f u tx o).1.scored ≡ some r
  score-stored tx o r h = elim (Option-cases (lookup tx.transaction_id o.scored)) [
    | inr (old, e) ↦
        let same = score_found tx o old e in
        let is_old : old ≡ r = ok-injective old r (sym (ap (λ m. m.0) same) ∙ h) in
        ap (λ m. lookup tx.transaction_id m.1.scored) same ∙ e ∙ ap some is_old
    | inl fresh ↦ elim (score-cases tx o fresh) [
      | inl (e, broke, made) ↦ absurd (refused e (sym (ap (λ m. m.0) made) ∙ h))
      | inr (new, made, made_of) ↦ elim (keep-cases tx new o) [
        | inl (bad, out, b₁, b₂, b₃) ↦
            absurd (refused invalid_response (sym out ∙ sym (ap (λ m. m.0) made_of) ∙ h))
        | inr (good, out, kept, b₁, b₂) ↦
            let is_new : new ≡ r = ok-injective new r (sym out ∙ sym (ap (λ m. m.0) made_of) ∙ h) in
            ap (λ m. lookup tx.transaction_id m.1.scored) made_of
            ∙ ap (lookup tx.transaction_id) kept
            ∙ lookup-insert_same tx.transaction_id tx.transaction_id new o.scored
                (beq_refl tx.transaction_id)
            ∙ ap some is_new
      ]
    ]
  ]
    where
      refused : (e : ScoreError) → ◌≡◌ {A = Result ScoreError (ScoreResponse f)} (err e) (ok r) → ⊥
      refused e g = cc

  -- A transaction that is not scored yet and is answered: the answer is what `assess` makes.
  pub score-assess :
      (tx : TransactionInput f) (o : Orchestrator f) (r : ScoreResponse f)
      → lookup tx.transaction_id o.scored ≡ none
      → (score f u tx o).0 ≡ ok r
      → assess f u tx o.store ≡ ok r
  score-assess tx o r fresh h = elim (score-cases tx o fresh) [
    | inl (e, broke, made) ↦ absurd (refused e (sym (ap (λ m. m.0) made) ∙ h))
    | inr (new, answered, made) ↦ elim (keep-cases tx new o) [
      | inl (bad, out, b₁, b₂, b₃) ↦
          absurd (refused invalid_response (sym out ∙ sym (ap (λ m. m.0) made) ∙ h))
      | inr (good, out, b₁, b₂, b₃) ↦ answered ∙ sym out ∙ sym (ap (λ m. m.0) made) ∙ h
    ]
  ]
    where
      refused : (e : ScoreError) → ◌≡◌ {A = Result ScoreError (ScoreResponse f)} (err e) (ok r) → ⊥
      refused e g = cc
