-- ===== src/AnalystApi/Drift.antt =====
-- services/analyst_api/veripay_analyst_api/profiles.py: `detect_drift`, which compares the last 30 days
-- of a customer with the last 90.
use veri_pay.AnalystApi.{GeoPoint}
use veri_pay.AnalystApi.Profiles.{ProfileStore, StoredTransaction, days, history, last_time, recent}
use veri_pay.Common.{
  Bool, List, Option, String, [], false, filter, if◌then◌else◌, leb, length, ltb, map, none, not,
  or_else, seconds, some, text_append, true, ℕ, ◌&&◌, ◌-◌, ◌∷◌,
}
use veri_pay.DecisionEngine.Float.{Float}

-- What the code calls of `math` and `statistics`, the quotient of two floats, the square, and the text
-- of a float with no digit.
pub record Maths (f : Float) : Type 0 where
  pub radians : f.Real → f.Real
  pub sin : f.Real → f.Real
  pub cos : f.Real → f.Real
  pub asin : f.Real → f.Real
  pub sqrt : f.Real → f.Real
  pub square : f.Real → f.Real
  pub div : f.Real → f.Real → f.Real
  pub sum : List f.Real → f.Real
  pub median : List f.Real → f.Real
  pub fixed0 : f.Real → String

-- `DriftReport`
pub record DriftReport : Type 0 where
  pub kind : String
  pub severity : String
  pub message : String

module _ (f : Float) (m : Maths f) where
  unfoldable pub haversine_km : GeoPoint f → GeoPoint f → f.Real
  haversine_km a b =
      let lat1 = m.radians a.lat in
      let lat2 = m.radians b.lat in
      let dlat = f.sub lat2 lat1 in
      let dlon = f.sub (m.radians b.lon) (m.radians a.lon) in
      let h =
        f.add (m.square (m.sin (m.div dlat (f.of_nat 2))))
          (f.mul (f.mul (m.cos lat1) (m.cos lat2)) (m.square (m.sin (m.div dlon (f.of_nat 2))))) in
      f.mul (f.mul (f.of_nat 2) (f.of_nat 6371)) (m.asin (m.sqrt h))

  -- `_point`
  abbrev pub point : StoredTransaction f → Option (GeoPoint f)
  point tx = or_else tx.location tx.merchant_location

  abbrev pub points : List (StoredTransaction f) → List (GeoPoint f)
  points [] = []
  points (x ∷ xs) = elim (point x) [ none ↦ points xs | some p ↦ p ∷ points xs ]

  abbrev pub mean_of : List f.Real → f.Real
  mean_of xs = m.div (m.sum xs) (f.of_nat (length xs))

  -- `_centroid`
  abbrev pub centroid_of : List (GeoPoint f) → Option (GeoPoint f)
  centroid_of [] = none
  centroid_of (p ∷ ps) = some (record {
    lat = mean_of (map (λ (q : GeoPoint f). q.lat) (p ∷ ps));
    lon = mean_of (map (λ (q : GeoPoint f). q.lon) (p ∷ ps));
  })

  abbrev pub sudden_report : f.Real → DriftReport
  sudden_report distance = record {
    kind = "sudden";
    severity = if f.le (f.of_nat 1000) distance then "red" else "yellow";
    message =
        text_append "Location jumped " (text_append (m.fixed0 distance) " km in under 15 minutes.");
  }

  -- One step of the loop over consecutive transactions: at most 15 minutes and at least 250 km apart.
  abbrev pub jump : Option (GeoPoint f) → Option (GeoPoint f) → ℕ → Option DriftReport
  jump (some p) (some q) gap =
      let distance = haversine_km p q in
      if leb gap (seconds 900) && f.le (f.of_nat 250) distance
      then some (sudden_report distance)
      else none
  jump _ _ gap = none

  abbrev pub first_jump : List (StoredTransaction f) → Option DriftReport
  first_jump [] = none
  first_jump (x ∷ []) = none
  first_jump (x ∷ y ∷ ys) =
      or_else (jump (point x) (point y) (y.timestamp - x.timestamp)) (first_jump (y ∷ ys))

  abbrev pub median_amount : List (StoredTransaction f) → f.Real
  median_amount xs = m.median (map (λ (x : StoredTransaction f). x.amount) xs)

  -- The median is not 0, and the quotient is not from 0.5 to 2.
  abbrev pub spending_changed : f.Real → f.Real → Bool
  spending_changed now before =
      let quotient = m.div now before in
      not (f.le before (f.of_nat 0) && f.le (f.of_nat 0) before)
      && not (f.le (f.true_div 1 2) quotient && f.le quotient (f.of_nat 2))

  abbrev pub relocated : Option (GeoPoint f) → Option (GeoPoint f) → Bool
  relocated (some p) (some q) = f.le (f.of_nat 100) (haversine_km p q)
  relocated _ _ = false

  abbrev pub gradual_reasons : Bool → Bool → Option String
  gradual_reasons true true = some "spending level changed; active area relocated"
  gradual_reasons true false = some "spending level changed"
  gradual_reasons false true = some "active area relocated"
  gradual_reasons false false = none

  abbrev pub gradual_report : Option String → Option DriftReport
  gradual_report none = none
  gradual_report (some reasons) = some (record {
    kind = "gradual";
    severity = "yellow";
    message = text_append "Gradual drift: " (text_append reasons " from long-term baseline.");
  })

  abbrev pub gradual_drift :
      List (StoredTransaction f) → List (StoredTransaction f) → Option DriftReport
  gradual_drift now before =
      if leb 5 (length now) && leb 5 (length before)
      then gradual_report (
          gradual_reasons (spending_changed (median_amount now) (median_amount before))
            (relocated (centroid_of (points now)) (centroid_of (points before))))
      else none

  -- `(last - ts).days <= 90`
  abbrev pub within_90_days : ℕ → StoredTransaction f → Bool
  within_90_days last x = ltb (last - x.timestamp) (days 91)

  unfoldable pub detect_drift : ℕ → ProfileStore f → Option DriftReport
  unfolding haversine_km history recent
  detect_drift customer s =
      let past = history f customer s in
      let now = recent f customer 30 s in
      if ltb (length past) 5
      then none
      else or_else (first_jump now)
          (gradual_drift now (filter (within_90_days (last_time f past)) past))
