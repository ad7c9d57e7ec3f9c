-- ===== src/Tests/Scores.antt =====
-- The theorems on fused scores and on locations at concrete inputs.
use veri_pay.Common.{
  Bool, String, [], arith, false, none, pos, refl, some, sum, true, ℕ, ◌*◌, ◌/◌, ◌∷◌, ◌≡◌,
}
use veri_pay.DeviceIntegrity.Gpv.{Geometry, GpvRequest, compared, evaluate_gpv, haversine_km}
use veri_pay.Enums.Trust.{GpvOutcome}
use veri_pay.ExternalContext.{ExternalContextRequest, evaluate_external_context, round_quotient}
use veri_pay.ExternalContext.Normalized.{IsOutcome, evaluate_external_context-IsOutcome}
use veri_pay.RiskFusion.{FusionRequest, RiskComponent, Rounding, fuse_risk, fused_score}
use veri_pay.RiskFusion.Shares.{Assessed, fuse_risk_unavailable, with_components}
use veri_pay.Tests.Floats.{naturals}

abbrev whole : Rounding naturals
whole = record { sum = sum; div = λ a b. a / b; round = pos }

abbrev component_of : String → ℕ → ℕ → Bool → RiskComponent naturals
component_of name score weight available = record {
  component = name;
  score = score;
  weight = weight;
  available = available;
  reason_code = none;
}

abbrev rules_component : RiskComponent naturals
rules_component = component_of "rules" 80 2 true

abbrev silent_component : RiskComponent naturals
silent_component = component_of "graph" 0 7 false

abbrev model_component : RiskComponent naturals
model_component = component_of "supervised" 20 1 true

abbrev fusion_request : FusionRequest naturals
fusion_request = record { transaction_id = "t1"; components = [] }

fuse_risk_unavailable_example :
    Assessed naturals whole
      (fuse_risk naturals whole (
        with_components naturals whole fusion_request
          (rules_component ∷ silent_component ∷ model_component ∷ [])))
      (fuse_risk naturals whole
        (with_components naturals whole fusion_request (rules_component ∷ model_component ∷ [])))
fuse_risk_unavailable_example =
    fuse_risk_unavailable naturals whole fusion_request (rules_component ∷ [])
      (model_component ∷ []) silent_component refl

-- The two available components give (80 * 2 + 20) / 3.
fused_sixty : fused_score naturals whole (rules_component ∷ model_component ∷ []) ≡ pos 60
fused_sixty = refl

-- Angles stand for their own sines.
abbrev straight : Geometry naturals
straight = record {
  radians = λ a. a;
  sin = λ a. a;
  cos = λ a. 1;
  asin = λ a. a;
  sqrt = λ a. a;
  square = λ a. a * a;
  div = λ a b. a / b;
  round3 = λ a. a;
}

abbrev far_request : GpvRequest naturals
far_request = record {
  transaction_id = "t1";
  current_latitude = 50;
  current_longitude = 8;
  previous_latitude = some 10;
  previous_longitude = some 8;
  elapsed_minutes = 60;
  max_speed_kmh = 900;
}

far_mismatched : (evaluate_gpv naturals straight far_request).outcome ≡ GpvOutcome.mismatched
unfolding evaluate_gpv compared haversine_km
far_mismatched = refl

-- Two signals, observed 10 seconds before the call.
abbrev context_request : ExternalContextRequest
context_request = record {
  transaction_id = "t1";
  region = none;
  economic_risk_score = some 20;
  seasonal_risk_score = none;
  geographic_risk_score = some 80;
  observed_at = some 1000000;
  now = some 11000000;
  max_age_seconds = 900;
  provenance = "external-context";
}

test_context : (evaluate_external_context naturals context_request 0).normalized_score ≡ 50
unfolding evaluate_external_context round_quotient
test_context = refl

evaluate_external_context-IsOutcome_example :
    IsOutcome naturals context_request 0 20 80
      (evaluate_external_context naturals context_request 0)
evaluate_external_context-IsOutcome_example =
    evaluate_external_context-IsOutcome naturals context_request 0 20 80 (omega arith, omega arith)
      tt (omega arith, omega arith)
