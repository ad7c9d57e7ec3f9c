-- ===== src/AnalystApi/Heightened.antt =====
-- How a verdict of an analyst acts on later scores, services/analyst_api/veripay_analyst_api/service.py,
-- profiles.py and adjustments.py together.
use veri_pay.AnalystApi.{Tools}
use veri_pay.AnalystApi.Adjustments.{chain, feedback_adjustment, is_confirmed_fraud, window_benign}
use veri_pay.AnalystApi.Assessment.{Setup, assess, features_of, raw_value}
use veri_pay.AnalystApi.Decisions.{assess-eq-ok}
use veri_pay.AnalystApi.Feedback.{FeedbackInput, Sinks, stored_feedback, submit_feedback}
use veri_pay.AnalystApi.Profiles.{
  ProfileStore, StoredFeedback, add_transaction, feedback_for_customer, has_confirmed_fraud,
  record_feedback, trust_status, verdicts_of,
}
use veri_pay.AnalystApi.Queue.{Call, call_feedback, call_score, run}
use veri_pay.AnalystApi.Scored.{score-assess, score-cases, score_found}
use veri_pay.AnalystApi.Scoring.{
  ModelAnswer, ScoreError, ScoreResponse, TransactionInput, clamp01, valid_response,
}
use veri_pay.AnalystApi.Service.{Orchestrator, keep, score}
use veri_pay.Common.{
  Bool, Bool-cases, Dict, List, Option-cases, Result, String, [], any, ap, arith, err, get_or,
  if◌then◌else◌, inl, inr, lookup, nat_beq, nat_beq_iff, ok, refl, some, sym, true, ℕ, ◌++◌, ◌||◌,
  ◌∙◌, ◌∷◌, ◌≡◌, ◌⊎◌,
}
use veri_pay.DecisionEngine.Float.{Float}

Result-cases : {E A : Type 0} (m : Result E A) → ((a : A) × (m ≡ ok a)) ⊎ ((e : E) × (m ≡ err e))
Result-cases (ok a) = inl (a, refl)
Result-cases (err e) = inr (e, refl)

module _ (f : Float) (t : Tools f) where
  any-verdicts :
      (p : String → Bool) (c : ℕ) (xs ys : List StoredFeedback)
      → any p (verdicts_of f c (xs ++ ys))
        ≡ (any p (verdicts_of f c xs) || any p (verdicts_of f c ys))
  any-verdicts p c [] ys = refl
  any-verdicts p c (x ∷ xs) ys = elim (Bool-cases (nat_beq x.cc_num c)) [
    | inl e ↦ rw e (elim (Bool-cases (p x.analyst_decision)) [
      | inl yes_p ↦ rw yes_p refl
      | inr no_p ↦ rw no_p (any-verdicts p c xs ys)
    ])
    | inr e ↦ rw e (any-verdicts p c xs ys)
  ]

  -- A confirmed fraud stays in the verdicts of a customer.
  pub confirmed-append :
      (c : ℕ) (s : ProfileStore f) (r : StoredFeedback)
      → has_confirmed_fraud f t c s ≡ true
      → has_confirmed_fraud f t c (record_feedback f r s) ≡ true
  unfolding has_confirmed_fraud feedback_for_customer record_feedback
  confirmed-append c s r h = any-verdicts (is_confirmed_fraud f t) c s.feedback (r ∷ []) ∙ rw h refl

  pub confirmed-new :
      (s : ProfileStore f) (r : StoredFeedback)
      → is_confirmed_fraud f t r.analyst_decision ≡ true
      → has_confirmed_fraud f t r.cc_num (record_feedback f r s) ≡ true
  unfolding has_confirmed_fraud feedback_for_customer record_feedback
  confirmed-new s r h =
      any-verdicts (is_confirmed_fraud f t) r.cc_num s.feedback (r ∷ [])
      ∙ rw ((nat_beq_iff r.cc_num r.cc_num).1 refl, h) (ground arith)

  -- A customer with a confirmed fraud: the fraud probability is raised, whatever else was said.
  pub feedback_adjustment-fraud_add :
      (labels : List String) (window : ℕ) (trust_factor add : f.Real)
      → any (is_confirmed_fraud f t) labels ≡ true
      → (feedback_adjustment f t labels window trust_factor add).fraud_add ≡ add
  unfolding feedback_adjustment
  feedback_adjustment-fraud_add labels window trust_factor add h =
      elim (Bool-cases (window_benign f t window labels)) [
        | inl e ↦ rw (h, e, feedback_adjustment) refl
        | inr e ↦ rw (h, e, feedback_adjustment) refl
      ]

module _ (f : Float) (u : Setup f) where
  keep-feedback :
      (tx : TransactionInput f) (r : ScoreResponse f) (o : Orchestrator f)
      → (keep f u tx r o).1.store.feedback ≡ o.store.feedback
  unfolding keep add_transaction
  keep-feedback tx r o = elim (Bool-cases (valid_response f u.tools r)) [
    | inl e ↦ rw (e, keep) refl
    | inr e ↦ rw (e, keep) refl
  ]

  score-feedback :
      (tx : TransactionInput f) (o : Orchestrator f)
      → (score f u tx o).1.store.feedback ≡ o.store.feedback
  score-feedback tx o = elim (Option-cases (lookup tx.transaction_id o.scored)) [
    | inr (r, e) ↦ ap (λ m. m.1.store.feedback) (score_found f u tx o r e)
    | inl fresh ↦ elim (score-cases f u tx o fresh) [
      | inl (e, broke, made) ↦ ap (λ m. m.1.store.feedback) made
      | inr (r, answered, made) ↦ ap (λ m. m.1.store.feedback) made ∙ keep-feedback tx r o
    ]
  ]

  confirmed_of :
      (c : ℕ) (s q : ProfileStore f)
      → s.feedback ≡ q.feedback
      → has_confirmed_fraud f u.tools c q ≡ true
      → has_confirmed_fraud f u.tools c s ≡ true
  unfolding has_confirmed_fraud feedback_for_customer
  confirmed_of c s q e h = ap (λ l. any (is_confirmed_fraud f u.tools) (verdicts_of f c l)) e ∙ h

  run-confirmed :
      (cs : List (Call f)) (c : ℕ) (o : Orchestrator f)
      → has_confirmed_fraud f u.tools c o.store ≡ true
      → has_confirmed_fraud f u.tools c (run f u cs o).store ≡ true
  unfolding run submit_feedback
  run-confirmed [] c o h = h
  run-confirmed (call_score tx ∷ cs) c o h =
      run-confirmed cs c (score f u tx o).1
        (confirmed_of c (score f u tx o).1.store o.store (score-feedback tx o) h)
  run-confirmed (call_feedback sinks r now ∷ cs) c o h =
      run-confirmed cs c (submit_feedback f u sinks r now o).1
        (confirmed-append f u.tools c o.store (stored_feedback f u r now) h)

  -- What stands for `round4(max(0, min(1, raw + alert)))` of an answer of the fraud model.
  abbrev pub raised : ModelAnswer f → f.Real
  raised answer =
      let sum = f.add (get_or answer.value (f.of_nat 0)) u.settings.heightened_alert_add in
      let low = if f.lt sum (f.of_nat 1) then sum else f.of_nat 1 in
      u.tools.round4 (if f.lt (f.of_nat 0) low then low else f.of_nat 0)

  -- The fraud model answers the transaction, and the probability is that answer with the alert.
  abbrev pub IsRaised : TransactionInput f → ScoreResponse f → Type 0
  IsRaised tx r =
      (answer : ModelAnswer f) × (features : Dict f.Real) × (u.client.supervised_score
          tx.transaction_id features
        ≡ some answer)
      × (r.fraud_probability ≡ raised answer)

  assess-IsRaised :
      (tx : TransactionInput f) (s : ProfileStore f) (r : ScoreResponse f)
      → has_confirmed_fraud f u.tools tx.cc_num s ≡ true
      → assess f u tx s ≡ ok r
      → IsRaised tx r
  unfolding has_confirmed_fraud chain clamp01
  assess-IsRaised tx s r confirmed h =
      let (answer, anomaly, graph, fusion, engine, e₁, e₂, made) = assess-eq-ok f u tx s r h in
      (
        answer,
        (features_of f u tx s).0,
        e₁,
        ap (λ (q : ScoreResponse f). q.fraud_probability) (sym made)
            ∙ ap (λ add. u.tools.round4 (clamp01 f u.tools (f.add (raw_value f u answer) add)))
                (feedback_adjustment-fraud_add f u.tools (feedback_for_customer f tx.cc_num s)
                  u.settings.trust_boost_window u.settings.trust_boost_factor
                  u.settings.heightened_alert_add confirmed),
      )

  -- How a call of `score` ends: with the response that is retained already, with an exception, or with
  -- a raised fraud probability.
  abbrev pub EndsRaised : TransactionInput f → Orchestrator f → Type 0
  EndsRaised tx o =
      ((old : ScoreResponse f) × (lookup tx.transaction_id o.scored ≡ some old)
        × (score f u tx o ≡ (ok old, o)))
      ⊎ ((e : ScoreError) × ((score f u tx o).0 ≡ err e))
      ⊎ ((r : ScoreResponse f) × ((score f u tx o).0 ≡ ok r) × IsRaised tx r)

  score-EndsRaised :
      (tx : TransactionInput f) (o : Orchestrator f)
      → has_confirmed_fraud f u.tools tx.cc_num o.store ≡ true
      → EndsRaised tx o
  score-EndsRaised tx o confirmed = elim (Option-cases (lookup tx.transaction_id o.scored)) [
    | inr (old, e) ↦ inl (old, e, score_found f u tx o old e)
    | inl fresh ↦ elim (Result-cases (score f u tx o).0) [
      | inl (r, answered) ↦ inr (
          inr (
            r,
            answered,
            assess-IsRaised tx o.store r confirmed (score-assess f u tx o r fresh answered),
          ))
      | inr (e, failed) ↦ inr (inl (e, failed))
    ]
  ]

  -- Once an analyst has confirmed a fraud on a customer, then after any further calls, and whether or
  -- not the verdict could be forwarded: the customer's trust level is "alert", and a score of any
  -- transaction of the customer returns the response that was retained before, raises, or returns the
  -- fraud model's answer plus the configured alert, cut to the range from 0 to 1 and rounded, as the
  -- fraud probability.
  pub submit_feedback-heightened :
      (sinks : Sinks) (r : FeedbackInput) (now window : ℕ) (cs : List (Call f)) (o : Orchestrator f)
      (tx : TransactionInput f)
      → is_confirmed_fraud f u.tools r.analyst_decision ≡ true
      → tx.cc_num ≡ r.cc_num
      → let later = run f u cs (submit_feedback f u sinks r now o).1 in
        ((trust_status f u.tools r.cc_num window later.store).level ≡ "alert") × EndsRaised tx later
  unfolding submit_feedback trust_status
  submit_feedback-heightened sinks r now window cs o tx h owner =
      let next = (submit_feedback f u sinks r now o).1 in
      let later = run f u cs next in
      let confirmed =
        run-confirmed cs r.cc_num next
          (confirmed-new f u.tools o.store (stored_feedback f u r now) h) in
      (
        rw (confirmed, trust_status) refl,
        score-EndsRaised tx later
            (ap (λ c. has_confirmed_fraud f u.tools c later.store) owner ∙ confirmed),
      )
