-- ===== src/DeviceIntegrity/Gpv/Travel.antt =====
-- When `evaluate_gpv` reports a mismatch: never without both locations, never of a device that has not
-- moved, and never after a longer time than one that was enough.
use veri_pay.Common.{Option-cases, ap, arith, inl, inr, refl, some, sym, true, ◌↔◌, ◌∙◌, ◌≡◌, ◌⊎◌}
use veri_pay.DecisionEngine.Float.{Float, IsNonneg}
use veri_pay.DeviceIntegrity.Gpv.{
  Geometry, GpvRequest, GpvResult, compared, evaluate_gpv, haversine_km, permitted_km, reachable,
  unavailable_result,
}
use veri_pay.Enums.Trust.{GpvOutcome}

-- What the code relies on of `math` and of IEEE 754: a product with a number that is not negative, a
-- quotient by 60 and a sum keep the order of their arguments.
pub record OrderedSteps (f : Float) (m : Geometry f) : Type 0 where
  pub le_trans : (a b c : f.Real) → f.le a b ≡ true → f.le b c ≡ true → f.le a c ≡ true
  pub mul_mono :
      (s a b : f.Real) → IsNonneg f s → f.le a b ≡ true → f.le (f.mul s a) (f.mul s b) ≡ true
  pub div_mono :
      (a b : f.Real) → f.le a b ≡ true → f.le (m.div a (f.of_nat 60)) (m.div b (f.of_nat 60)) ≡ true
  pub add_mono :
      (a b : f.Real)
      → f.le a b ≡ true
      → f.le (f.add a (f.true_div 1 4)) (f.add b (f.true_div 1 4)) ≡ true

-- Degrees of a location, which are finite, and the values of the functions at 0.
pub record ZeroLaws (f : Float) (m : Geometry f) : Type 1 where
  pub IsDegrees : f.Real → Type 0
  pub sub_self : (x : f.Real) → IsDegrees x → f.sub x x ≡ f.of_nat 0
  pub radians_zero : m.radians (f.of_nat 0) ≡ f.of_nat 0
  pub half_zero : m.div (f.of_nat 0) (f.of_nat 2) ≡ f.of_nat 0
  pub sin_zero : m.sin (f.of_nat 0) ≡ f.of_nat 0
  pub square_zero : m.square (f.of_nat 0) ≡ f.of_nat 0
  pub add_zero : f.add (f.of_nat 0) (f.of_nat 0) ≡ f.of_nat 0
  pub cos_zero :
      (x : f.Real)
      → IsDegrees x
      → f.mul (f.mul (m.cos (m.radians x)) (m.cos (m.radians x))) (f.of_nat 0) ≡ f.of_nat 0
  pub zero_lt_one : f.lt (f.of_nat 0) (f.of_nat 1) ≡ true
  pub sqrt_zero : m.sqrt (f.of_nat 0) ≡ f.of_nat 0
  pub asin_zero : m.asin (f.of_nat 0) ≡ f.of_nat 0
  pub diameter_zero : f.mul (f.mul (f.of_nat 2) (f.of_nat 6371)) (f.of_nat 0) ≡ f.of_nat 0

gpv_likely_match : ¬ (GpvOutcome.likely_match ≡ GpvOutcome.mismatched)
gpv_likely_match e = cc

module _ (f : Float) (m : Geometry f) where
  -- Both coordinates of the previous location are known.
  abbrev pub IsLocated : GpvRequest f → f.Real → f.Real → Type 0
  IsLocated r latitude longitude =
      (r.previous_latitude ≡ some latitude) × (r.previous_longitude ≡ some longitude)

  -- The distance is at most the permitted one and the tolerance of 250 m.
  abbrev pub IsReachable : GpvRequest f → f.Real → f.Real → Type 0
  IsReachable r latitude longitude =
      reachable f m (haversine_km f m latitude longitude r.current_latitude r.current_longitude)
        (permitted_km f m r)
      ≡ true

  evaluate_gpv_located :
      (r : GpvRequest f) (latitude longitude : f.Real)
      → IsLocated r latitude longitude
      → evaluate_gpv f m r ≡ compared f m r latitude longitude
  unfolding evaluate_gpv compared
  evaluate_gpv_located r latitude longitude (at, along) = rw (at, along) refl

  compared-IsReachable :
      (r : GpvRequest f) (latitude longitude : f.Real)
      → IsReachable r latitude longitude
        ↔ ((compared f m r latitude longitude).outcome ≡ GpvOutcome.matched)
  unfolding compared
  compared-IsReachable r latitude longitude = ground arith

  evaluate_gpv-cases :
      (r : GpvRequest f)
      → ((latitude : f.Real) × (longitude : f.Real) × IsLocated r latitude longitude)
        ⊎ (evaluate_gpv f m r ≡ unavailable_result f m r)
  unfolding evaluate_gpv
  evaluate_gpv-cases r = elim (Option-cases r.previous_latitude) [
    | inl e ↦ inr (rw e refl)
    | inr (latitude, at) ↦ elim (Option-cases r.previous_longitude) [
      | inl e ↦ inr (rw (at, e) refl)
      | inr (longitude, along) ↦ inl (latitude, longitude, (at, along))
    ]
  ]

  compared-mismatched :
      (r : GpvRequest f) (latitude longitude : f.Real)
      → (compared f m r latitude longitude).outcome ≡ GpvOutcome.mismatched
      → ¬ IsReachable r latitude longitude
        × ((compared f m r latitude longitude).available ≡ true)
        × ((compared f m r latitude longitude).reason_code ≡ "GPV_IMPOSSIBLE_TRAVEL")
  unfolding compared
  compared-mismatched r latitude longitude h = ground arith

  haversine_same :
      (z : ZeroLaws f m) (latitude longitude : f.Real)
      → z.IsDegrees latitude
      → z.IsDegrees longitude
      → haversine_km f m latitude longitude latitude longitude ≡ f.of_nat 0
  unfolding haversine_km
  haversine_same z latitude longitude lat lon =
      rw
        (
          haversine_km,
          z.sub_self latitude lat,
          z.sub_self longitude lon,
          z.radians_zero,
          z.half_zero,
          z.sin_zero,
          z.square_zero,
          z.cos_zero latitude lat,
          z.add_zero,
          z.zero_lt_one,
          z.sqrt_zero,
          z.asin_zero,
        )
        z.diameter_zero

  -- A mismatch names a known previous location that is farther away than the speed and the time
  -- permit, and it says so: the result is available, with the reason of impossible travel.
  evaluate_gpv-mismatched :
      (r : GpvRequest f)
      → (evaluate_gpv f m r).outcome ≡ GpvOutcome.mismatched
      → (latitude : f.Real) × (longitude : f.Real) × IsLocated r latitude longitude
        × ¬ IsReachable r latitude longitude
        × ((evaluate_gpv f m r).available ≡ true)
        × ((evaluate_gpv f m r).reason_code ≡ "GPV_IMPOSSIBLE_TRAVEL")
  evaluate_gpv-mismatched r h = elim (evaluate_gpv-cases r) [
    | inl (latitude, longitude, located) ↦
        let e = evaluate_gpv_located r latitude longitude located in
        let (apart, available, reason) = compared-mismatched r latitude longitude (rw (← e) h) in
        (latitude, longitude, located, apart, rw e available, rw e reason)
    | inr e ↦ absurd (gpv_likely_match (sym (ap (λ (x : GpvResult f). x.outcome) e) ∙ h))
  ]

  -- A device that has not moved is matched, whatever its speed and the time.
  evaluate_gpv_unmoved :
      (z : ZeroLaws f m) (r : GpvRequest f)
      → z.IsDegrees r.current_latitude
      → z.IsDegrees r.current_longitude
      → IsLocated r r.current_latitude r.current_longitude
      → IsNonneg f (f.add (permitted_km f m r) (f.true_div 1 4))
      → (evaluate_gpv f m r).outcome ≡ GpvOutcome.matched
  evaluate_gpv_unmoved z r lat lon located h =
      rw (evaluate_gpv_located r r.current_latitude r.current_longitude located) (
        (compared-IsReachable r r.current_latitude r.current_longitude).0
          (rw (haversine_same z r.current_latitude r.current_longitude lat lon) h))

  abbrev pub with_elapsed : GpvRequest f → f.Real → GpvRequest f
  with_elapsed r t = record r { elapsed_minutes = t }

  IsReachable-longer :
      (o : OrderedSteps f m) (r : GpvRequest f) (t latitude longitude : f.Real)
      → IsNonneg f r.max_speed_kmh
      → f.le r.elapsed_minutes t ≡ true
      → IsReachable r latitude longitude
      → IsReachable (with_elapsed r t) latitude longitude
  IsReachable-longer o r t latitude longitude speed longer h =
      o.le_trans _ _ _ h (o.add_mono _ _ (o.div_mono _ _ (o.mul_mono _ _ _ speed longer)))

  -- More time never turns a match into a mismatch.
  evaluate_gpv_longer :
      (o : OrderedSteps f m) (r : GpvRequest f) (t latitude longitude : f.Real)
      → IsNonneg f r.max_speed_kmh
      → f.le r.elapsed_minutes t ≡ true
      → IsLocated r latitude longitude
      → (evaluate_gpv f m r).outcome ≡ GpvOutcome.matched
      → (evaluate_gpv f m (with_elapsed r t)).outcome ≡ GpvOutcome.matched
  evaluate_gpv_longer o r t latitude longitude speed longer located h =
      rw (evaluate_gpv_located (with_elapsed r t) latitude longitude located) (
        (compared-IsReachable (with_elapsed r t) latitude longitude).0 (
          IsReachable-longer o r t latitude longitude speed longer (
            (compared-IsReachable r latitude longitude).1
              (rw (← evaluate_gpv_located r latitude longitude located) h))))
