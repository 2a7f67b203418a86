-- ===== src/Examples/Vehicles.antt =====
-- A prediction of two minutes, asked for 30 seconds after it was made.
use disturbancesmlx.Prelude.{◌*◌, ◌≡◌, ◌⊎◌, some, [], ◌∷◌, arith, pos, ◌≤ℤ◌}
use disturbancesmlx.Clock.{Time, second, minute}
use disturbancesmlx.Vehicles.Accuracy.{Describes, vehicle_eta_to_struct_lem}
use disturbancesmlx.Vehicles.Eta.{since, relative_exact, VehicleEta, remaining_validity, live_eta}
use disturbancesmlx.Vehicles.Live.{live_eta_lem}
use disturbancesmlx.Vehicles.Wire.{build_not_available, vehicle_eta_to_struct}

abbrev prediction : VehicleEta
prediction = record {
  station = 1;
  direction = 2;
  arrival_order = 1;
  transport_units = 6;
  vehicle_service_id = b'1' ∷ b'2' ∷ b'A' ∷ [];
  platform = "1";
  computed = 1000 * second;
  valid_for = pos (60 * second);
  eta_type = relative_exact;
  absolute_eta = 0;
  eta = pos (120 * second);
  eta_lower_bound = pos 0;
  eta_upper_bound = pos 0;
  precision = pos (10 * second);
}

abbrev later : Time
later = 1030 * second

live_eta_lem_example :
    (live_eta later prediction ≡ pos (90 * second))
    × (remaining_validity later prediction ≡ pos (30 * second))
live_eta_lem_example =
    live_eta_lem later prediction
      (record {
        past = omega arith;
        elapsed = omega arith;
        most = omega arith;
        least = omega arith;
      })
      (record {
        past = omega arith;
        elapsed = omega arith;
        most = omega arith;
        least = omega arith;
      })

vehicle_eta_to_struct_lem_example :
    (pos (2 * minute) ≤ℤ since later prediction.computed
      × vehicle_eta_to_struct later prediction
        ≡ some (build_not_available 2 later (pos (2 * minute)) 1 6))
    ⊎ (since later prediction.computed ≤ℤ pos (2 * minute)
        × Describes later prediction relative_exact (vehicle_eta_to_struct later prediction))
vehicle_eta_to_struct_lem_example = vehicle_eta_to_struct_lem later prediction
