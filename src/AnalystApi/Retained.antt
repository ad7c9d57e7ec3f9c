-- ===== src/AnalystApi/Retained.antt =====
-- The scores that services/analyst_api/veripay_analyst_api/service.py retains stay retained.
use veri_pay.AnalystApi.Assessment.{Setup}
use veri_pay.AnalystApi.Feedback.{submit_feedback}
use veri_pay.AnalystApi.Queue.{Call, call_feedback, call_score, kept_lookup, run}
use veri_pay.AnalystApi.Scored.{keep-cases, score-cases, score-stored, score_found}
use veri_pay.AnalystApi.Scoring.{ScoreResponse, TransactionInput}
use veri_pay.AnalystApi.Service.{Orchestrator, keep, score}
use veri_pay.Common.{
  List, Option-cases, String, [], ap, inl, inr, lookup, none, ok, some, ◌∙◌, ◌∷◌, ◌≡◌,
}
use veri_pay.DecisionEngine.Float.{Float}

module _ (f : Float) (u : Setup f) where
  keep-retained :
      (tx : TransactionInput f) (r : ScoreResponse f) (o : Orchestrator f) (id : String)
      (old : ScoreResponse f)
      → lookup tx.transaction_id o.scored ≡ none
      → lookup id o.scored ≡ some old
      → lookup id (keep f u tx r o).1.scored ≡ some old
  keep-retained tx r o id old fresh there = elim (keep-cases f u tx r o) [
    | inl (bad, out, scored, b₁, b₂) ↦ rw scored there
    | inr (good, out, scored, b₁, b₂) ↦
        rw scored (kept_lookup f u tx.transaction_id id r old o.scored fresh there)
  ]

  score-retained :
      (tx : TransactionInput f) (o : Orchestrator f) (id : String) (old : ScoreResponse f)
      → lookup id o.scored ≡ some old
      → lookup id (score f u tx o).1.scored ≡ some old
  score-retained tx o id old there = elim (Option-cases (lookup tx.transaction_id o.scored)) [
    | inr (r, e) ↦ rw (score_found f u tx o r e) there
    | inl fresh ↦ elim (score-cases f u tx o fresh) [
      | inl (e, broke, made) ↦ rw made there
      | inr (r, answered, made) ↦ rw made (keep-retained tx r o id old fresh there)
    ]
  ]

  run-retained :
      (cs : List (Call f)) (o : Orchestrator f) (id : String) (old : ScoreResponse f)
      → lookup id o.scored ≡ some old
      → lookup id (run f u cs o).scored ≡ some old
  unfolding run submit_feedback
  run-retained [] o id old there = there
  run-retained (call_score tx ∷ cs) o id old there =
      run-retained cs (score f u tx o).1 id old (score-retained tx o id old there)
  run-retained (call_feedback sinks r now ∷ cs) o id old there =
      run-retained cs (submit_feedback f u sinks r now o).1 id old there

  -- A call of `score` that returns is final for its identifier: after any further calls, scores of any
  -- transactions or feedback, a call with this identifier, whatever the rest of it, returns the same
  -- response and changes nothing, neither the customer's history nor the alerts.
  pub score_again :
      (tx again : TransactionInput f) (o : Orchestrator f) (r : ScoreResponse f)
      (cs : List (Call f))
      → (score f u tx o).0 ≡ ok r
      → again.transaction_id ≡ tx.transaction_id
      → score f u again (run f u cs (score f u tx o).1) ≡ (ok r, run f u cs (score f u tx o).1)
  score_again tx again o r cs h same =
      let later = run f u cs (score f u tx o).1 in
      score_found f u again later r (
        ap (λ i. lookup i later.scored) same
        ∙ run-retained cs (score f u tx o).1 tx.transaction_id r (score-stored f u tx o r h))
