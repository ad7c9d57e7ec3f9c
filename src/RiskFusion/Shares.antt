-- ===== src/RiskFusion/Shares.antt =====
-- What the fused score of `fuse_risk` rests on: the components that are available.
use veri_pay.Common.{
  IsOk, List, Result, [], err, false, filter-append, ok, pos, refl, sym, ◌++◌, ◌>>=◌, ◌↔◌, ◌∙◌, ◌∷◌,
  ◌≡◌,
}
use veri_pay.DecisionEngine.Float.{Float}
use veri_pay.Enums.Risk.{RiskBand, RiskTier}
use veri_pay.RiskFusion.{
  FusionRequest, FusionResponse, RiskComponent, Rounding, available_of, fuse_risk, fused_score,
}
use veri_pay.RiskPolicy.{PolicyError, band_for_tier, tier_for_score}
use veri_pay.RiskPolicy.Score.{InRange, tier_for_score-IsOk}

module _ (f : Float) (m : Rounding f) where
  -- The score, the band and the tier of a response.
  abbrev pub Assessed :
      Result PolicyError (FusionResponse f) → Result PolicyError (FusionResponse f) → Type 0
  Assessed (ok a) (ok b) =
      (a.unified_score ≡ b.unified_score) × (a.band ≡ b.band) × (a.tier ≡ b.tier)
  Assessed (err a) (err b) = a ≡ b
  Assessed _ _ = ⊥

  abbrev pub with_components : FusionRequest f → List (RiskComponent f) → FusionRequest f
  with_components r cs = record r { components = cs }

  Assessed-same :
      (tier : Result PolicyError RiskTier) (answer other : RiskTier → FusionResponse f)
      → ((t : RiskTier) → Assessed (ok (answer t)) (ok (other t)))
      → Assessed (do t ← tier; ok (answer t)) (do t ← tier; ok (other t))
  Assessed-same (ok t) answer other same = same t
  Assessed-same (err e) answer other same = refl

  answer-IsOk :
      (tier : Result PolicyError RiskTier) (answer : RiskTier → FusionResponse f)
      → IsOk tier ↔ IsOk (do t ← tier; ok (answer t))
  answer-IsOk (ok t) answer = (λ h. h, λ h. h)
  answer-IsOk (err e) answer = (λ h. h, λ h. h)

  -- Two requests with the same available components have the same assessment.
  fuse_risk-available :
      (r s : FusionRequest f)
      → available_of f m r.components ≡ available_of f m s.components
      → Assessed (fuse_risk f m r) (fuse_risk f m s)
  unfolding fuse_risk
  fuse_risk-available r s h = rw h (Assessed-same _ _ _ (λ t. (refl, refl, refl)))

  -- A component that is not available has no say, whatever its score and its weight and wherever it
  -- stands: the request without it has the same score, band and tier, or the same exception.
  pub fuse_risk_unavailable :
      (r : FusionRequest f) (before after : List (RiskComponent f)) (c : RiskComponent f)
      → c.available ≡ false
      → Assessed
          (fuse_risk f m (with_components r (before ++ c ∷ after)))
          (fuse_risk f m (with_components r (before ++ after)))
  fuse_risk_unavailable r before after c h =
      fuse_risk-available (with_components r (before ++ c ∷ after))
        (with_components r (before ++ after))
        (filter-append (λ (x : RiskComponent f). x.available) before (c ∷ after)
          ∙ rw h (sym (filter-append (λ (x : RiskComponent f). x.available) before after)))

  -- When no component is available the request fails closed: the score is 100, the tier HIGH and the
  -- band BLOCK.
  fuse_risk_blind :
      (r : FusionRequest f)
      → available_of f m r.components ≡ []
      → fuse_risk f m r
        ≡ ok (record {
          transaction_id = r.transaction_id;
          unified_score = pos 100;
          band = RiskBand.block;
          tier = RiskTier.high;
          components = r.components;
        })
  unfolding fuse_risk tier_for_score band_for_tier
  fuse_risk_blind r h = rw h refl

  -- The answer is a response exactly when the fused score is a whole score from 0 to 100.
  fuse_risk-IsOk :
      (r : FusionRequest f)
      → InRange (fused_score f m (available_of f m r.components)) ↔ IsOk (fuse_risk f m r)
  unfolding fuse_risk
  fuse_risk-IsOk r =
      let score = fused_score f m (available_of f m r.components) in
      (
        λ h. (answer-IsOk (tier_for_score score) _).0 ((tier_for_score-IsOk score).0 h),
        λ h. (tier_for_score-IsOk score).1 ((answer-IsOk (tier_for_score score) _).1 h),
      )
