-- ===== src/Examples/Accounts.antt =====
-- A device that asks for a second pair, three minutes after the first.
use disturbancesmlx.Prelude.{◌+◌, ◌*◌, ◌≡◌, refl, false, some, [], ◌∷◌, arith, pos, ◌-ℤ◌, select}
use disturbancesmlx.Accounts.Activation.{Granted, calculate_activation_time_lem}
use disturbancesmlx.Accounts.Pairing.{
  AndroidPairRequest, distance, device_penalty, address_penalty, accumulate,
  calculate_activation_time,
}
use disturbancesmlx.Clock.{minute, hour, sub}
use disturbancesmlx.Vehicles.Eta.{duration_max}

abbrev asked : AndroidPairRequest
asked = record {
  nonce = "n1";
  request_time = 10 * hour;
  android_id = "phone";
  ip_address = "10.0.0.1";
}

abbrev again : AndroidPairRequest
again = record asked { nonce = "n2"; request_time = 10 * hour + 3 * minute }

calculate_activation_time_lem_example :
    Granted (11 * hour) (11 * hour) (11 * hour) (pos minute) again (asked ∷ []) (
      calculate_activation_time false
        (11 * hour)
        (11 * hour)
        (11 * hour)
        (pos minute)
        again
        (asked ∷ []))
calculate_activation_time_lem_example =
    calculate_activation_time_lem (11 * hour) (11 * hour) (11 * hour) (pos minute) again
      (asked ∷ []) (omega arith) (omega arith)

three_hours :
    calculate_activation_time false
      (11 * hour)
      (11 * hour)
      (11 * hour)
      (pos minute)
      again
      (asked ∷ [])
    ≡ some (14 * hour)
unfolding calculate_activation_time accumulate select distance device_penalty address_penalty sub
    duration_max ◌-ℤ◌
three_hours = refl
