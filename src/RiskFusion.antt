-- ===== src/RiskFusion.antt =====
-- services/risk_fusion/veripay_risk_fusion/service.py: the fusion of the scores of risk components.
pub mod Shares
use veri_pay.Common.{
  Bool, List, Option, Result, String, [], filter, map, not, ok, pos, sum, ℤ, ◌>>=◌, ◌>>◌, ◌∷◌,
}
use veri_pay.DecisionEngine.Float.{Float}
use veri_pay.Enums.Risk.{RiskBand, RiskTier}
use veri_pay.RiskPolicy.{PolicyError, band_for_tier, tier_for_score}

-- What the code calls of Python on floats: `sum` of a sequence, a quotient, and `round` to an `int`.
pub record Rounding (f : Float) : Type 0 where
  pub sum : List f.Real → f.Real
  pub div : f.Real → f.Real → f.Real
  pub round : f.Real → ℤ

pub record RiskComponent (f : Float) : Type 0 where
  pub component : String
  pub score : f.Real
  pub weight : f.Real
  pub available : Bool
  pub reason_code : Option String

pub record FusionRequest (f : Float) : Type 0 where
  pub transaction_id : String
  pub components : List (RiskComponent f)

pub record FusionResponse (f : Float) : Type 0 where
  pub transaction_id : String
  pub unified_score : ℤ
  pub band : RiskBand
  pub tier : RiskTier
  pub components : List (RiskComponent f)

module _ (f : Float) (m : Rounding f) where
  abbrev pub weights : List (RiskComponent f) → List f.Real
  weights cs = map (λ (c : RiskComponent f). c.weight) cs

  -- `score * weight` of each component
  abbrev pub products : List (RiskComponent f) → List f.Real
  products cs = map (λ (c : RiskComponent f). f.mul c.score c.weight) cs

  -- `validate_weights`: some weight is positive.
  unfoldable pub valid_weights : FusionRequest f → Bool
  valid_weights r = not (f.le (m.sum (weights r.components)) (f.of_nat 0))

  -- `available`
  abbrev pub available_of : List (RiskComponent f) → List (RiskComponent f)
  available_of cs = filter (λ (c : RiskComponent f). c.available) cs

  abbrev pub fused_score : List (RiskComponent f) → ℤ
  fused_score [] = pos 100
  fused_score (c ∷ cs) = m.round (m.div (m.sum (products (c ∷ cs))) (m.sum (weights (c ∷ cs))))

  unfoldable pub fuse_risk : FusionRequest f → Result PolicyError (FusionResponse f)
  fuse_risk r =
      let score = fused_score (available_of r.components) in
      do
        tier ← tier_for_score score
        ok (record {
          transaction_id = r.transaction_id;
          unified_score = score;
          band = band_for_tier tier;
          tier = tier;
          components = r.components;
        })
