-- ===== src/Trips/Update.antt =====
-- Trip.Update and StationUse.Update (types/trip.go, types/stationuse.go): what is stored of a trip,
-- with the times of its uses put in order.
use disturbancesmlx.Prelude.{
  ℕ, suc, Bool, false, not, ◌&&◌, ◌||◌, Option, none, some, List, [], ◌∷◌, upsert, ◌==◌,
  if◌then◌else◌,
}
use disturbancesmlx.Clock.{Time, zero_time, before}
use disturbancesmlx.Disturbances.Model.{valid}
use disturbancesmlx.Disturbances.Phase.{next}
use disturbancesmlx.Trips.Model.{
  is_interchange, is_visit, is_known, StationUse, Trip, TripRow, UseRow, TripDb, upsert_use,
}

-- The calls that can fail; those on a use name the use by its place in the trip.
pub data TripOp : Type 0 where
  begin_trip insert_trip commit_trip : TripOp
  begin_use insert_use commit_use : ℕ → TripOp

-- stationUse.checkValidAndLines()
unfoldable pub valid_use : StationUse → Bool
valid_use u =
    if before u.leave_time u.entry_time
    then false
    else if not (is_known u.use_type)
    then false
    else if is_interchange u.use_type && (not (valid u.source_line) || not (valid u.target_line))
    then false
    else if not (is_interchange u.use_type) && (valid u.source_line || valid u.target_line)
    then false
    else not (same_line u.source_line u.target_line)
  where
    same_line : Option ℕ → Option ℕ → Bool
    same_line (some a) (some b) = a == b
    same_line _ _ = false

-- The two corrections of the loop of Trip.Update.
unfoldable pub admit : Bool → Time → StationUse → StationUse
admit first next u =
    let entry = if not first && before u.entry_time next then next else u.entry_time in
    record u {
      entry_time = entry;
      leave_time = if before u.leave_time entry then entry else u.leave_time;
    }

abbrev pub trip_row : Trip → TripRow
trip_row t = record {
  row_trip = t.trip_id;
  row_start = t.start_time;
  row_end = t.end_time;
  row_submitter = t.submitter;
  row_submit_time = t.submit_time;
  row_edit_time = if t.edited then some t.edit_time else none;
  row_confirmed = t.user_confirmed;
}

-- len(trip.StationUses) == 1 && trip.StationUses[0].Type != Visit
abbrev pub lone_use : List StationUse → Bool
lone_use (u ∷ []) = not (is_visit u.use_type)
lone_use _ = false

module _ (fails : TripOp → Bool) where
  -- stationUse.Update(tx, tripID); `none` is an error.
  unfoldable pub use_update : ℕ → ℕ → StationUse → List UseRow → Option (List UseRow)
  use_update i trip u rows =
      if not (valid_use u) || fails (begin_use i) || fails (insert_use i) || fails (commit_use i)
      then none
      else some (upsert_use (trip, u) rows)

  -- The loop over the uses, which are corrected in place.
  unfoldable pub save_uses :
      ℕ → Time → ℕ → List StationUse → List UseRow → List StationUse × Option (List UseRow)
  save_uses i next trip [] rows = ([], some rows)
  save_uses i next trip (u ∷ us) rows =
      let u' = admit (i == 0) next u in
      let rest : List StationUse × Option (List UseRow) = elim (use_update i trip u' rows) [
        | none ↦ (us, none)
        | some rows' ↦ save_uses (suc i) u'.leave_time trip us rows'
      ] in
      (u' ∷ rest.0, rest.1)

  -- trip.Update(node): the trip as it is left, and what is committed, or `none` for an error.
  -- `is_id` says whether the text is a UUID of 36 bytes.
  unfoldable pub trip_update : (ℕ → Bool) → Trip → TripDb → Trip × Option TripDb
  trip_update is_id t db =
      if not (is_id t.trip_id) || lone_use t.station_uses || fails begin_trip || fails insert_trip
      then (t, none)
      else (let (us, result) = save_uses 0 zero_time t.trip_id t.station_uses db.uses in
          (
            record t { station_uses = us },
            elim result [
              | none ↦ none
              | some rows ↦
                  if fails commit_trip
                  then none
                  else some (record {
                    trips = upsert (λ r. r.row_trip) (trip_row t) db.trips;
                    uses = rows;
                  })
            ],
          ))
