-- ===== src/AnalystApi/Decisions.antt =====
-- How the decision of a score of services/analyst_api/veripay_analyst_api/service.py follows from the
-- engine's action, and which decisions are put before an analyst.
use veri_pay.AnalystApi.{Decision}
use veri_pay.AnalystApi.Assessment.{
  Setup, adjusted_anomaly, adjusted_fraud, adjustment_of, assess, components_of, features_of,
  response_of,
}
use veri_pay.AnalystApi.Profiles.{ProfileStore, has_confirmed_fraud}
use veri_pay.AnalystApi.Reasoning.{map_decision}
use veri_pay.AnalystApi.Scoring.{
  EngineAnswer, Fusion, GraphAnswer, ModelAnswer, ScoreError, ScoreResponse, TransactionInput,
  call_failed, graph_or_none, refine,
}
use veri_pay.Common.{
  Bool, Result, false, if◌then◌else◌, inl, inr, ok, or_raise-eq-ok, refl, some, subst, true, ◌&&◌,
  ◌≡◌, ◌⊎◌,
}
use veri_pay.DecisionEngine.Float.{Float}
use veri_pay.Enums.Risk.{DecisionAction}

-- An automatic block stays a block or goes to an analyst, and no other decision changes.
abbrev pub Follows : DecisionAction → Decision → Type 0
Follows DecisionAction.allow d = d ≡ Decision.pass
Follows DecisionAction.monitor d = d ≡ Decision.review_unusual
Follows DecisionAction.challenge d = d ≡ Decision.review_unusual
Follows DecisionAction.review d = d ≡ Decision.review_stealth
Follows DecisionAction.decline d = (d ≡ Decision.block) ⊎ (d ≡ Decision.review_stealth)
Follows DecisionAction.reverse d = (d ≡ Decision.block) ⊎ (d ≡ Decision.review_stealth)

block-cases :
    (b : Bool)
    → ((if b then Decision.review_stealth else Decision.block) ≡ Decision.block)
      ⊎ ((if b then Decision.review_stealth else Decision.block) ≡ Decision.review_stealth)
block-cases true = inr refl
block-cases false = inl refl

module _ (f : Float) (u : Setup f) where
  refine-Follows :
      (a : DecisionAction) (fraud unusual : f.Real)
      → Follows a (refine f u.tools u.settings (map_decision a) fraud unusual)
  unfolding refine map_decision
  refine-Follows DecisionAction.allow fraud unusual = refl
  refine-Follows DecisionAction.monitor fraud unusual = refl
  refine-Follows DecisionAction.challenge fraud unusual = refl
  refine-Follows DecisionAction.review fraud unusual = refl
  refine-Follows DecisionAction.decline fraud unusual = block-cases (
      f.le u.settings.fraud_quadrant_threshold fraud
      && f.lt unusual u.settings.anomaly_quadrant_threshold)
  refine-Follows DecisionAction.reverse fraud unusual = block-cases (
      f.le u.settings.fraud_quadrant_threshold fraud
      && f.lt unusual u.settings.anomaly_quadrant_threshold)

  -- What the services answered for a response.
  pub assess-eq-ok :
      (tx : TransactionInput f) (s : ProfileStore f) (r : ScoreResponse f)
      → assess f u tx s ≡ ok r
      → (supervised : ModelAnswer f) × (anomaly : ModelAnswer f) × (graph : GraphAnswer f)
        × (fusion : Fusion) × (engine : EngineAnswer) × (u.client.supervised_score tx.transaction_id
              (features_of f u tx s).0
            ≡ some supervised)
        × (u.client.decide tx.transaction_id fusion ≡ some engine)
        × (response_of f u tx
              (features_of f u tx s).1
              supervised
              anomaly
              graph
              (adjustment_of f u tx.cc_num s)
              fusion
              engine
            ≡ r)
  unfolding assess
  assess-eq-ok tx s r h =
      let features = features_of f u tx s in
      let (supervised, e₁, h₁) =
        or_raise-eq-ok (u.client.supervised_score tx.transaction_id features.0) call_failed _ h in
      let (anomaly, e₂, h₂) =
        or_raise-eq-ok (u.client.anomaly_score tx.transaction_id features.0) call_failed _ h₁ in
      let combined = adjustment_of f u tx.cc_num s in
      let flagged = has_confirmed_fraud f u.tools tx.cc_num s in
      let graph = graph_or_none f u.tools (u.client.graph_score tx flagged) in
      let (fusion, e₃, h₃) =
        or_raise-eq-ok
          (u.client.fuse_risk tx.transaction_id
            (components_of f u supervised anomaly graph combined))
          call_failed _ h₂ in
      let (engine, e₄, h₄) =
        or_raise-eq-ok (u.client.decide tx.transaction_id fusion) call_failed _ h₃ in
      (supervised, anomaly, graph, fusion, engine, e₁, e₄, same _ h₄)
    where
      same :
          (s : ScoreResponse f)
          → ◌≡◌ {A = Result ScoreError (ScoreResponse f)} (ok s) (ok r)
          → s ≡ r
      same s g = cc

  -- In a response that the services' answers give, the decision follows the engine's action: an
  -- allowance passes, a monitoring or challenge is an unusual case, a review is a stealth case, and a
  -- decline or reversal is blocked or given to an analyst, never passed.
  pub assess-Follows :
      (tx : TransactionInput f) (s : ProfileStore f) (r : ScoreResponse f)
      → assess f u tx s ≡ ok r
      → Follows r.action r.decision
  assess-Follows tx s r h =
      let (supervised, anomaly, graph, fusion, engine, e₁, e₂, made) = assess-eq-ok tx s r h in
      subst (λ (q : ScoreResponse f). Follows q.action q.decision) made
        (refine-Follows engine.action
          (adjusted_fraud f u supervised (adjustment_of f u tx.cc_num s))
          (adjusted_anomaly f u anomaly (adjustment_of f u tx.cc_num s)))
