-- ===== src/DeviceIntegrity/Gpv.antt =====
-- services/device_integrity/veripay_device_integrity/service.py: `_haversine_km` and `evaluate_gpv`, the
-- check that a device can have travelled between two locations.
pub mod Travel
use veri_pay.Common.{
  Bool, Option, String, false, if◌then◌else◌, list_eq, nat_eq, none, option_eq, some, string_eq,
  true, ◌==◌,
}
use veri_pay.DecisionEngine.Float.{Float}
use veri_pay.Enums.Dispute.{dispute_reason_eq, dispute_status_eq}
use veri_pay.Enums.Payment.{
  channel_eq, payment_rail_eq, processing_path_eq, verification_outcome_eq,
}
use veri_pay.Enums.Risk.{decision_action_eq, risk_band_eq, risk_tier_eq}
use veri_pay.Enums.Token.{token_status_eq}
use veri_pay.Enums.Trust.{
  GpvOutcome, device_platform_eq, device_trust_state_eq, gpv_outcome_eq, sca_exemption_eq,
}

-- What the code calls of `math`, a quotient of floats, the square, and `round(x, 3)`.
pub record Geometry (f : Float) : Type 0 where
  pub radians : f.Real → f.Real
  pub sin : f.Real → f.Real
  pub cos : f.Real → f.Real
  pub asin : f.Real → f.Real
  pub sqrt : f.Real → f.Real
  pub square : f.Real → f.Real
  pub div : f.Real → f.Real → f.Real
  pub round3 : f.Real → f.Real

pub record GpvRequest (f : Float) : Type 0 where
  pub transaction_id : String
  pub current_latitude : f.Real
  pub current_longitude : f.Real
  pub previous_latitude : Option f.Real
  pub previous_longitude : Option f.Real
  pub elapsed_minutes : f.Real
  pub max_speed_kmh : f.Real

pub record GpvResult (f : Float) : Type 0 where
  pub transaction_id : String
  pub outcome : GpvOutcome
  pub available : Bool
  pub distance_km : Option f.Real
  pub permitted_distance_km : Option f.Real
  pub reason_code : String

module _ (f : Float) (m : Geometry f) where
  -- `min(1.0, value)`: the first argument, unless the second is less.
  abbrev pub at_most_one : f.Real → f.Real
  at_most_one value = if f.lt value (f.of_nat 1) then value else f.of_nat 1

  unfoldable pub haversine_km : f.Real → f.Real → f.Real → f.Real → f.Real
  haversine_km latitude_a longitude_a latitude_b longitude_b =
      let lat_a = m.radians latitude_a in
      let lat_b = m.radians latitude_b in
      let delta_lat = m.radians (f.sub latitude_b latitude_a) in
      let delta_lon = m.radians (f.sub longitude_b longitude_a) in
      let value = f.add (m.square (m.sin (m.div delta_lat (f.of_nat 2)))) (
        f.mul (f.mul (m.cos lat_a) (m.cos lat_b))
          (m.square (m.sin (m.div delta_lon (f.of_nat 2))))) in
      f.mul (f.mul (f.of_nat 2) (f.of_nat 6371)) (m.asin (m.sqrt (at_most_one value)))

  abbrev pub permitted_km : GpvRequest f → f.Real
  permitted_km r = m.div (f.mul r.max_speed_kmh r.elapsed_minutes) (f.of_nat 60)

  -- `distance <= permitted + 0.25`
  abbrev pub reachable : f.Real → f.Real → Bool
  reachable distance permitted = f.le distance (f.add permitted (f.true_div 1 4))

  abbrev pub unavailable_result : GpvRequest f → GpvResult f
  unavailable_result r = record {
    transaction_id = r.transaction_id;
    outcome = GpvOutcome.likely_match;
    available = false;
    distance_km = none;
    permitted_distance_km = none;
    reason_code = "PREVIOUS_LOCATION_UNAVAILABLE";
  }

  unfoldable pub compared : GpvRequest f → f.Real → f.Real → GpvResult f
  unfolding haversine_km
  compared r latitude longitude =
      let distance = haversine_km latitude longitude r.current_latitude r.current_longitude in
      let permitted = permitted_km r in
      let outcome =
        if reachable distance permitted then GpvOutcome.matched else GpvOutcome.mismatched in
      record {
        transaction_id = r.transaction_id;
        outcome = outcome;
        available = true;
        distance_km = some (m.round3 distance);
        permitted_distance_km = some (m.round3 permitted);
        reason_code =
            if outcome == GpvOutcome.matched then "GPV_MATCH" else "GPV_IMPOSSIBLE_TRAVEL";
      }

  unfoldable pub evaluate_gpv : GpvRequest f → GpvResult f
  evaluate_gpv r = elim r.previous_latitude [
    | none ↦ unavailable_result r
    | some latitude ↦ elim r.previous_longitude [
      | none ↦ unavailable_result r
      | some longitude ↦ compared r latitude longitude
    ]
  ]
