-- ===== src/Vehicles/Eta.antt =====
-- types/vehicleeta.go: a prediction of an arrival, and what is left of it as time passes.
use disturbancesmlx.Prelude.{ℕ, String, List, pos, ◌-ℤ◌, ltb_ℤ, if◌then◌else◌}
use disturbancesmlx.Clock.{Time, Duration, sub, wrap_int64}

pub data VehicleEtaType : Type 0 where
  absolute relative_exact relative_range relative_minimum relative_maximum : VehicleEtaType

-- The stations are named by their keys; the service identifier is its bytes.
pub record VehicleEta : Type 0 where
  pub station : ℕ
  pub direction : ℕ
  pub arrival_order : ℕ
  pub transport_units : ℕ
  pub vehicle_service_id : List ℕ
  pub platform : String
  pub computed : Time
  pub valid_for : Duration
  pub eta_type : VehicleEtaType
  pub absolute_eta : Time
  pub eta : Duration
  pub eta_lower_bound : Duration
  pub eta_upper_bound : Duration
  pub precision : Duration

-- durationMax(a, b)
unfoldable pub duration_max : Duration → Duration → Duration
duration_max a b = if ltb_ℤ b a then a else b

-- time.Since(eta.Computed) at the time `now`
unfoldable pub since : Time → Time → Duration
since now t = sub now t

-- int64 subtraction of durations, which wraps around.
unfoldable pub minus : Duration → Duration → Duration
minus a b = wrap_int64 (a -ℤ b)

unfoldable pub remaining_validity : Time → VehicleEta → Duration
remaining_validity now e = duration_max (pos 0) (minus e.valid_for (since now e.computed))

unfoldable pub set_eta : Duration → VehicleEta → VehicleEta
set_eta d e = record e { eta_type = relative_exact; eta = d }

unfoldable pub live_eta : Time → VehicleEta → Duration
live_eta now e = duration_max (pos 0) (minus e.eta (since now e.computed))

unfoldable pub live_eta_lower_bound : Time → VehicleEta → Duration
live_eta_lower_bound now e = duration_max (pos 0) (minus e.eta_lower_bound (since now e.computed))

unfoldable pub live_eta_upper_bound : Time → VehicleEta → Duration
live_eta_upper_bound now e = duration_max (pos 0) (minus e.eta_upper_bound (since now e.computed))
