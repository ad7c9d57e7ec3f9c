-- ===== src/AnalystApi/Assessment.antt =====
-- services/analyst_api/veripay_analyst_api/service.py: the assessment of a transaction by the services
-- behind the orchestrator, up to the response.
use veri_pay.AnalystApi.{Tools}
use veri_pay.AnalystApi.Adjustments.{Adjustment, chain, drift_adjustment, feedback_adjustment}
use veri_pay.AnalystApi.Drift.{DriftReport, Maths, detect_drift, within_90_days}
use veri_pay.AnalystApi.Profiles.{
  ProfileStore, feedback_for_customer, has_confirmed_fraud, history, recent_benign,
}
use veri_pay.AnalystApi.Reasoning.{map_decision, map_risk_level, verification_action_text}
use veri_pay.AnalystApi.Scoring.{
  Client, Component, EngineAnswer, Fusion, GraphAnswer, ModelAnswer, ScoreError, ScoreResponse,
  Settings, TransactionInput, call_failed, clamp01, graph_or_none, percent, refine,
}
use veri_pay.Common.{
  Bool, Dict, List, Option, Result, String, [], false, filter, get_or, if◌then◌else◌, none, ok,
  or_raise, some, true, ℕ, ◌&&◌, ◌>>=◌, ◌∷◌,
}
use veri_pay.DecisionEngine.Float.{Float}
use veri_pay.DisputeEngine.{report}

-- What an orchestrator is made with.
pub record Setup (f : Float) : Type 0 where
  pub tools : Tools f
  pub maths : Maths f
  pub client : Client f
  pub settings : Settings f

module _ (f : Float) (u : Setup f) where
  -- The model features and their mode.
  abbrev pub features_of : TransactionInput f → ProfileStore f → Dict f.Real × String
  features_of tx s =
      let before = history f tx.cc_num s in
      let history_90 = filter (within_90_days f u.maths tx.timestamp) before in
      elim tx.model_features [
        | some given ↦ (given, "basic")
        | none ↦
            if u.settings.use_rich_features
            then (u.client.rich_features tx before history_90, "rich")
            else (u.client.build_features tx before history_90, "basic")
      ]

  abbrev pub kind_of : Option DriftReport → Option String
  kind_of none = none
  kind_of (some report) = some report.kind

  -- `combined`
  abbrev pub adjustment_of : ℕ → ProfileStore f → Adjustment f
  adjustment_of customer s =
      let window = u.settings.trust_boost_window in
      chain f u.tools
        (feedback_adjustment f u.tools (feedback_for_customer f customer s) window
          u.settings.trust_boost_factor u.settings.heightened_alert_add)
        (drift_adjustment f u.tools (kind_of (detect_drift f u.maths customer s))
          (recent_benign f u.tools customer window s) u.settings.gradual_drift_factor
          u.settings.sudden_drift_factor)

  abbrev pub raw_value : ModelAnswer f → f.Real
  raw_value a = get_or a.value (f.of_nat 0)

  abbrev pub is_available : ModelAnswer f → Bool
  is_available a = get_or a.model_available true

  abbrev pub adjusted_fraud : ModelAnswer f → Adjustment f → f.Real
  adjusted_fraud a combined = clamp01 f u.tools (f.add (raw_value a) combined.fraud_add)

  abbrev pub adjusted_anomaly : ModelAnswer f → Adjustment f → f.Real
  adjusted_anomaly a combined = clamp01 f u.tools (f.mul (raw_value a) combined.anomaly_factor)

  abbrev pub network_risk : GraphAnswer f → f.Real
  network_risk g = get_or g.network_risk_score (f.of_nat 0)

  abbrev pub components_of :
      ModelAnswer f → ModelAnswer f → GraphAnswer f → Adjustment f → List (Component f)
  components_of supervised anomaly graph combined =
      record {
        component = "supervised";
        score = percent f u.tools (adjusted_fraud supervised combined);
        weight = f.true_div 1 2;
        available = is_available supervised;
      }
      ∷ record {
        component = "anomaly";
        score = percent f u.tools (adjusted_anomaly anomaly combined);
        weight = f.true_div 1 2;
        available = is_available anomaly;
      }
      ∷ record {
        component = "network";
        score = percent f u.tools (network_risk graph);
        weight = u.settings.network_fusion_weight;
        available = get_or graph.available false;
      }
      ∷ []

  abbrev pub response_of :
      TransactionInput f
      → String
      → ModelAnswer f
      → ModelAnswer f
      → GraphAnswer f
      → Adjustment f
      → Fusion
      → EngineAnswer
      → ScoreResponse f
  response_of tx mode supervised anomaly graph combined fusion engine =
      let fraud = adjusted_fraud supervised combined in
      let unusual = adjusted_anomaly anomaly combined in
      let decision = refine f u.tools u.settings (map_decision engine.action) fraud unusual in
      record {
        transaction_id = tx.transaction_id;
        cc_num = tx.cc_num;
        decision = decision;
        risk_level = map_risk_level engine.risk_tier;
        verification_action = verification_action_text decision engine.risk_tier;
        action = engine.action;
        risk_band = engine.risk_band;
        risk_tier = engine.risk_tier;
        fused_risk_score = fusion.unified_score;
        fraud_probability = u.tools.round4 fraud;
        anomaly_score = u.tools.round4 unusual;
        raw_fraud_probability = u.tools.round4 (raw_value supervised);
        raw_anomaly_score = u.tools.round4 (raw_value anomaly);
        model_available = is_available supervised && is_available anomaly;
        feature_mode = mode;
        network_risk_score = u.tools.round4 (network_risk graph);
        network_available = get_or graph.available false;
        network_findings = graph.findings;
      }

  -- The calls of the services, in their order, and the response they make. The state is only read.
  unfoldable pub assess : TransactionInput f → ProfileStore f → Result ScoreError (ScoreResponse f)
  assess tx s = do
    let features = features_of tx s
    supervised ← or_raise (u.client.supervised_score tx.transaction_id features.0) call_failed
    anomaly ← or_raise (u.client.anomaly_score tx.transaction_id features.0) call_failed
    let combined = adjustment_of tx.cc_num s
    let flagged = has_confirmed_fraud f u.tools tx.cc_num s
    let graph = graph_or_none f u.tools (u.client.graph_score tx flagged)
    fusion ←
        or_raise
          (u.client.fuse_risk tx.transaction_id (components_of supervised anomaly graph combined))
          call_failed
    engine ← or_raise (u.client.decide tx.transaction_id fusion) call_failed
    ok (response_of tx features.1 supervised anomaly graph combined fusion engine)
