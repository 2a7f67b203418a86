-- ===== src/Examples/Trips.antt =====
-- A trip of two stations whose second use was entered before the first was left.
use disturbancesmlx.Prelude.{◌*◌, ◌≡◌, refl, Bool, true, false, none, some, [], ◌∷◌, upsert}
use disturbancesmlx.Clock.{zero_time, second}
use disturbancesmlx.Trips.Edit.{TripRequest, put_trip}
use disturbancesmlx.Trips.Edited.{EditOutcome, put_trip_lem}
use disturbancesmlx.Trips.Model.{network_entry, network_exit, visit, StationUse, Trip, TripDb}
use disturbancesmlx.Trips.Stored.{OrderedFrom, MovedForward, Merged, trip_update_lem}
use disturbancesmlx.Trips.Update.{
  TripOp, valid_use, admit, trip_row, use_update, save_uses, trip_update,
}
use disturbancesmlx.Vehicles.NextTrain.{answer}

abbrev first_use : StationUse
first_use = record {
  use_station = 1;
  entry_time = 100 * second;
  leave_time = 200 * second;
  use_type = network_entry;
  manual = false;
  source_line = none;
  target_line = none;
}

abbrev second_use : StationUse
second_use = record first_use {
  use_station = 2;
  entry_time = 150 * second;
  leave_time = 180 * second;
  use_type = network_exit;
}

abbrev short_trip : Trip
short_trip = record {
  trip_id = 9;
  start_time = 100 * second;
  end_time = 180 * second;
  submitter = 7;
  submit_time = 300 * second;
  edit_time = 0;
  edited = false;
  user_confirmed = false;
  station_uses = first_use ∷ second_use ∷ [];
}

abbrev no_trips : TripDb
no_trips = record { trips = []; uses = [] }

abbrev moved_use : StationUse
moved_use = record second_use { entry_time = 200 * second; leave_time = 200 * second }

abbrev one_trip : TripDb
one_trip = record { trips = trip_row short_trip ∷ []; uses = (9, first_use) ∷ (9, moved_use) ∷ [] }

abbrev all_well : TripOp → Bool
all_well op = false

stored : (trip_update all_well (λ id. true) short_trip no_trips).1 ≡ some one_trip
unfolding trip_update save_uses use_update valid_use admit upsert
stored = refl

trip_update_lem_example :
    let vs = (trip_update all_well (λ id. true) short_trip no_trips).0.station_uses in
    OrderedFrom zero_time vs
    × MovedForward short_trip.station_uses vs
    × (OrderedFrom zero_time short_trip.station_uses → vs ≡ short_trip.station_uses)
    × Merged 9 vs no_trips.uses one_trip.uses
trip_update_lem_example = trip_update_lem all_well (λ id. true) short_trip no_trips one_trip stored

abbrev longer : TripRequest
longer = record {
  request_id = 9;
  request_uses =
      record {
        station_id = 1;
        request_entry = 100 * second;
        request_leave = 220 * second;
        type_string = visit;
        request_manual = false;
        source_line_id = none;
        target_line_id = none;
      }
      ∷ [];
  request_confirmed = true;
}

put_trip_lem_example :
    let (db', answer) =
      put_trip
        (λ s. true)
        (λ l. true)
        all_well
        false
        (λ id. true)
        (400 * second)
        longer
        7
        one_trip in
    EditOutcome (400 * second) longer 7 one_trip db' answer
put_trip_lem_example =
    put_trip_lem (λ s. true) (λ l. true) all_well false (λ id. true) (400 * second) longer 7
      one_trip
