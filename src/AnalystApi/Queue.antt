-- ===== src/AnalystApi/Queue.antt =====
-- The analysts' queue and the lookups of services/analyst_api/veripay_analyst_api/service.py stay
-- consistent with the retained scores.
use veri_pay.AnalystApi.{Decision, decision_eq}
use veri_pay.AnalystApi.Assessment.{Setup}
use veri_pay.AnalystApi.Decisions.{assess-eq-ok}
use veri_pay.AnalystApi.Feedback.{FeedbackInput, Sinks, submit_feedback}
use veri_pay.AnalystApi.Profiles.{set_at}
use veri_pay.AnalystApi.Scored.{keep-cases, score-cases, score_found}
use veri_pay.AnalystApi.Scoring.{ScoreResponse, TransactionInput}
use veri_pay.AnalystApi.Service.{AlertItem, Orchestrator, alert_of, keep, score, start}
use veri_pay.Common.{
  All, All-append, All-insert, All-map, Bool-cases, Dict, List, Option, Option-cases, String, [],
  ap, arith, beq_refl, false, inl, inr, insert, list_eq, lookup, lookup-insert_other,
  lookup-insert_same, nat_beq, nat_beq_iff, nat_eq, none, option_eq, refl, some, string_eq, sym, ℕ,
  ◌==◌, ◌∙◌, ◌∷◌, ◌≡◌,
}
use veri_pay.DecisionEngine.Float.{Float}
use veri_pay.Enums.Dispute.{dispute_reason_eq, dispute_status_eq}
use veri_pay.Enums.Payment.{
  channel_eq, payment_rail_eq, processing_path_eq, verification_outcome_eq,
}
use veri_pay.Enums.Risk.{decision_action_eq, risk_band_eq, risk_tier_eq}
use veri_pay.Enums.Token.{token_status_eq}
use veri_pay.Enums.Trust.{
  device_platform_eq, device_trust_state_eq, gpv_outcome_eq, sca_exemption_eq,
}

-- The calls that change the orchestrator.
pub data Call (f : Float) : Type 0 where
  call_score : TransactionInput f → Call f
  call_feedback : Sinks → FeedbackInput → ℕ → Call f

module _ (f : Float) (u : Setup f) where
  -- A retained score stands under its own identifier.
  abbrev pub IsOwn : String × ScoreResponse f → Type 0
  IsOwn (k, r) = k ≡ r.transaction_id

  -- The customer's pointer is unset, or at a retained score of this customer.
  abbrev pub IsPointer : Dict (ScoreResponse f) → ℕ → Option String → Type 0
  IsPointer scored c none = Unit
  IsPointer scored c (some k) = (r : ScoreResponse f) × (lookup k scored ≡ some r) × (r.cc_num ≡ c)

  -- The alert is of a retained score that did not pass.
  abbrev pub IsAlert : Dict (ScoreResponse f) → AlertItem f → Type 0
  IsAlert scored a =
      (r : ScoreResponse f) × (lookup a.transaction_id scored ≡ some r)
      × (r.decision ≡ a.decision)
      × ((a.decision == Decision.pass) ≡ false)

  abbrev pub IsConsistent :
      Dict (ScoreResponse f) → (ℕ → Option String) → List (AlertItem f) → Type 0
  IsConsistent scored pointers alerts =
      All IsOwn scored × ((c : ℕ) → IsPointer scored c (pointers c)) × All (IsAlert scored) alerts

  abbrev pub IsValid : Orchestrator f → Type 0
  IsValid o = IsConsistent o.scored o.lookup_by_customer o.alerts

  -- What is retained stays where a new identifier is added.
  pub kept_lookup :
      (k j : String) (r s : ScoreResponse f) (scored : Dict (ScoreResponse f))
      → lookup k scored ≡ none
      → lookup j scored ≡ some s
      → lookup j (insert k r scored) ≡ some s
  kept_lookup k j r s scored fresh there = elim (Bool-cases (k == j)) [
    | inl e ↦ absurd (clash (sym (ap (λ i. lookup i scored) ((string_eq.beq_iff k j).0 e)) ∙ fresh))
    | inr e ↦ lookup-insert_other k j r scored e ∙ there
  ]
    where
      clash : lookup j scored ≡ none → ⊥
      clash h = ground (arith, there, h)

  kept-IsPointer :
      (k : String) (r : ScoreResponse f) (scored : Dict (ScoreResponse f)) (c : ℕ)
      (p : Option String)
      → lookup k scored ≡ none
      → IsPointer scored c p
      → IsPointer (insert k r scored) c p
  kept-IsPointer k r scored c none fresh h = tt
  kept-IsPointer k r scored c (some j) fresh (s, there, owner) =
      (s, kept_lookup k j r s scored fresh there, owner)

  kept-IsAlert :
      (k : String) (r : ScoreResponse f) (scored : Dict (ScoreResponse f)) (a : AlertItem f)
      → lookup k scored ≡ none
      → IsAlert scored a
      → IsAlert (insert k r scored) a
  kept-IsAlert k r scored a fresh (s, there, same, alerted_it) =
      (s, kept_lookup k a.transaction_id r s scored fresh there, same, alerted_it)

  keep-IsValid :
      (tx : TransactionInput f) (r : ScoreResponse f) (o : Orchestrator f)
      → lookup tx.transaction_id o.scored ≡ none
      → r.transaction_id ≡ tx.transaction_id
      → r.cc_num ≡ tx.cc_num
      → IsValid o
      → IsValid (keep f u tx r o).1
  keep-IsValid tx r o fresh id_of owner v = elim (keep-cases f u tx r o) [
    | inl (bad, out, scored, pointer, alerts) ↦ rw (scored, pointer, alerts) v
    | inr (good, out, scored, pointer, alerts) ↦
        let (own, pointers, queue) = v in
        let k = tx.transaction_id in
        let later = insert k r o.scored in
        let there : lookup k later ≡ some r = lookup-insert_same k k r o.scored (beq_refl k) in
        let before : All (IsAlert later) o.alerts =
          All-map (IsAlert o.scored) (IsAlert later) o.alerts
            (λ a h. kept-IsAlert k r o.scored a fresh h) queue in
        rw (scored, pointer, alerts)
          (
            All-insert IsOwn k r o.scored (sym id_of) own,
            λ c.
                moved c there
                  (kept-IsPointer k r o.scored c (o.lookup_by_customer c) fresh (pointers c)),
            elim (Bool-cases (r.decision == Decision.pass)) [
              | inl e ↦ rw e before
              | inr e ↦ rw e (
                  All-append (IsAlert later) o.alerts (alert_of f u tx r ∷ []) before
                    ((r, there, refl, e), tt))
            ],
          )
  ]
    where
      moved :
          (c : ℕ)
          → lookup tx.transaction_id (insert tx.transaction_id r o.scored) ≡ some r
          → IsPointer (insert tx.transaction_id r o.scored) c (o.lookup_by_customer c)
          → IsPointer
              (insert tx.transaction_id r o.scored)
              c
              (set_at tx.cc_num (some tx.transaction_id) o.lookup_by_customer c)
      moved c there h = elim (Bool-cases (nat_beq tx.cc_num c)) [
        | inl e ↦ rw e (r, there, owner ∙ (nat_beq_iff tx.cc_num c).0 e)
        | inr e ↦ rw e h
      ]

  score-IsValid :
      (tx : TransactionInput f) (o : Orchestrator f) → IsValid o → IsValid (score f u tx o).1
  score-IsValid tx o v = elim (Option-cases (lookup tx.transaction_id o.scored)) [
    | inr (r, e) ↦ rw (score_found f u tx o r e) v
    | inl fresh ↦ elim (score-cases f u tx o fresh) [
      | inl (e, broke, made) ↦ rw made v
      | inr (r, answered, made) ↦
          let (supervised, anomaly, graph, fusion, engine, e₁, e₂, is_r) =
            assess-eq-ok f u tx o.store r answered in
          rw made (
            keep-IsValid tx r o fresh (ap (λ (q : ScoreResponse f). q.transaction_id) (sym is_r))
              (ap (λ (q : ScoreResponse f). q.cc_num) (sym is_r)) v)
    ]
  ]

  abbrev pub run_one : Call f → Orchestrator f → Orchestrator f
  run_one (call_score tx) o = (score f u tx o).1
  run_one (call_feedback sinks r now) o = (submit_feedback f u sinks r now o).1

  -- The state after calls in their order.
  unfoldable pub run : List (Call f) → Orchestrator f → Orchestrator f
  run [] o = o
  run (c ∷ cs) o = run cs (run_one c o)

  run_one-IsValid : (c : Call f) (o : Orchestrator f) → IsValid o → IsValid (run_one c o)
  unfolding submit_feedback
  run_one-IsValid (call_score tx) o v = score-IsValid tx o v
  run_one-IsValid (call_feedback sinks r now) o v = v

  run-IsValid : (cs : List (Call f)) (o : Orchestrator f) → IsValid o → IsValid (run cs o)
  unfolding run
  run-IsValid [] o v = v
  run-IsValid (c ∷ cs) o v = run-IsValid cs (run_one c o) (run_one-IsValid c o v)

  -- After any scores, repeated, failing or not, and any feedback: every retained score stands under its
  -- own identifier, the pointer of every customer is unset or at a retained score of that customer, and
  -- every alert of the queue is of a retained score with the same decision, which is no pass.
  pub run-start-IsValid : (cs : List (Call f)) → IsValid (run cs (start f u))
  unfolding start
  run-start-IsValid cs = run-IsValid cs (start f u) (tt, (λ c. tt), tt)
