-- ===== src/Examples/Timing.antt =====
-- Two rides over one connection.
use disturbancesmlx.Prelude.{
  ℕ, ◌+◌, ◌*◌, ◌≡◌, refl, Bool, false, ◌&&◌, Option, none, some, List, [], ◌∷◌, arith, pos, ◌+ℤ◌,
  ◌-ℤ◌, ◌==◌, if◌then◌else◌,
}
use disturbancesmlx.Clock.{second, sub}
use disturbancesmlx.Timing.Bounds.{IsShort, AllShort, update_typical_seconds-AllShort}
use disturbancesmlx.Timing.Tally.{
  add_sample, Graph, process_transfer, process_crossing, process_wait, process_pair, process_change,
  process_uses, process_trips,
}
use disturbancesmlx.Timing.Update.{
  Connection, TypicalOp, round_ratio, update_rows, update_transfers, update_connections,
  write_averages, update_typical_seconds,
}
use disturbancesmlx.Trips.Model.{StationUseType, network_entry, network_exit, StationUse, Trip}

abbrev use_at : ℕ → ℕ → ℕ → StationUseType → StationUse
use_at s enter leave kind = record {
  use_station = s;
  entry_time = enter * second;
  leave_time = leave * second;
  use_type = kind;
  manual = false;
  source_line = none;
  target_line = none;
}

abbrev ride_of : ℕ → ℕ → Trip
ride_of id took = record {
  trip_id = id;
  start_time = 0;
  end_time = 600 * second;
  submitter = 7;
  submit_time = 700 * second;
  edit_time = 0;
  edited = false;
  user_confirmed = false;
  station_uses = use_at 1 0 50 network_entry ∷ use_at 2 (50 + took) 600 network_exit ∷ [];
}

abbrev two_stations : Graph
two_stations = record {
  connection_of = λ a b. if a == 1 && b == 2 then some 5 else none;
  transfer_of = λ s a b. none;
}

abbrev old_connection : Connection
old_connection = record {
  connection_id = 5;
  from_station = 1;
  to_station = 2;
  typical_seconds = pos 100;
  typical_stop_seconds = pos 20;
  typical_waiting_seconds = pos 60;
}

abbrev all_work : TypicalOp → Bool
all_work op = false

abbrev lines_known : ℕ → Option (List ℕ)
lines_known s = some (1 ∷ [])

abbrev updated : Connection
updated = record old_connection { typical_seconds = pos 111; typical_waiting_seconds = pos 30 }

averaged :
    update_typical_seconds all_work lines_known two_stations
      (ride_of 1 90 ∷ ride_of 2 91 ∷ [])
      (old_connection ∷ [])
      []
    ≡ some (updated ∷ [], [])
unfolding update_typical_seconds write_averages update_connections update_rows update_transfers
    round_ratio process_trips process_uses process_pair process_change process_crossing process_wait
    process_transfer add_sample sub ◌+ℤ◌ ◌-ℤ◌
averaged = refl

old-IsShort : IsShort old_connection
old-IsShort = record { ride = omega arith; stop = omega arith; wait = omega arith }

update_typical_seconds-AllShort_example : AllShort (updated ∷ [])
update_typical_seconds-AllShort_example =
    update_typical_seconds-AllShort all_work lines_known two_stations
      (ride_of 1 90 ∷ ride_of 2 91 ∷ []) (old_connection ∷ []) (updated ∷ []) [] []
      (old-IsShort, tt) averaged
