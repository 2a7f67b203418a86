-- ===== src/Trips/Edit.antt =====
-- resource/trip.go: the edit of a trip by its submitter (Trip.Put), with the checks of the request.
use disturbancesmlx.Prelude.{
  ℕ, ◌+◌, ◌*◌, Bool, true, false, not, ◌&&◌, ◌||◌, Option, none, some, List, [], ◌∷◌, pos, ltb_ℤ,
  ◌==◌, if◌then◌else◌, ◌≡◌, refl, ◌⊎◌, inl, inr, length,
}
use disturbancesmlx.Clock.{Time, minute, hour, after, sub}
use disturbancesmlx.Disturbances.Model.{valid}
use disturbancesmlx.Trips.Model.{StationUseType, is_interchange, StationUse, Trip, TripRow, TripDb}
use disturbancesmlx.Trips.Update.{TripOp, trip_update}

-- apiStationUseWrapper; a line is `none` for the empty text.
pub record RequestUse : Type 0 where
  pub station_id : ℕ
  pub request_entry : Time
  pub request_leave : Time
  pub type_string : StationUseType
  pub request_manual : Bool
  pub source_line_id : Option ℕ
  pub target_line_id : Option ℕ

-- apiTripCreationRequest
pub record TripRequest : Type 0 where
  pub request_id : ℕ
  pub request_uses : List RequestUse
  pub request_confirmed : Bool

pub data EditError : Type 0 where
  no_uses not_found locked from_future too_long bad_station bad_source bad_target : EditError
  update_failed commit_failed : EditError

-- A step of a handler: an error of the request, or a value.
pub data Answer (A : Type 0) : Type 0 where
  refuse : EditError → Answer A
  accept : A → Answer A

pub Answer-cases :
    {A : Type 0} → (o : Answer A) → ((e : EditError) × (o ≡ refuse e)) ⊎ ((a : A) × (o ≡ accept a))
Answer-cases (refuse e) = inl (e, refl)
Answer-cases (accept a) = inr (a, refl)

abbrev use_of : RequestUse → StationUse
use_of q = record {
  use_station = q.station_id;
  entry_time = q.request_entry;
  leave_time = q.request_leave;
  use_type = q.type_string;
  manual = q.request_manual;
  source_line = if is_interchange q.type_string then q.source_line_id else none;
  target_line = if is_interchange q.type_string then q.target_line_id else none;
}

-- The line is named and GetLine does not find it.
abbrev pub missing : (ℕ → Bool) → Option ℕ → Bool
missing known none = false
missing known (some l) = not (known l)

-- The error of one round of buildStationUses, which looks at the lines of interchanges only.
abbrev pub use_error : (ℕ → Bool) → (ℕ → Bool) → RequestUse → Option EditError
use_error station_known line_known q =
    if not (station_known q.station_id)
    then some bad_station
    else if is_interchange q.type_string && missing line_known q.source_line_id
    then some bad_source
    else if is_interchange q.type_string && missing line_known q.target_line_id
    then some bad_target
    else none

abbrev pub find_trip : ℕ → List TripRow → Option TripRow
find_trip id [] = none
find_trip id (r ∷ rs) = if r.row_trip == id then some r else find_trip id rs

abbrev pub first_entry : List RequestUse → Time
first_entry [] = 0
first_entry (q ∷ qs) = q.request_entry

abbrev pub last_leave : List RequestUse → Time
last_leave [] = 0
last_leave (q ∷ []) = q.request_leave
last_leave (q ∷ r ∷ qs) = last_leave (r ∷ qs)

-- The trip that getTripToEdit makes, with the uses that it is given.
abbrev pub edited_trip : Time → TripRequest → ℕ → TripRow → List StationUse → Trip
edited_trip now request pair old us = record {
  trip_id = request.request_id;
  start_time = first_entry request.request_uses;
  end_time = last_leave request.request_uses;
  submitter = pair;
  submit_time = old.row_submit_time;
  edit_time = now;
  edited = true;
  user_confirmed = request.request_confirmed;
  station_uses = us;
}

-- The error of the checks after the trip was found; the clock is read once.
abbrev pub edit_error : Time → TripRequest → ℕ → TripRow → Option EditError
edit_error now request pair old =
    let start = first_entry request.request_uses in
    let end = last_leave request.request_uses in
    if not (old.row_submitter == pair)
    then some not_found
    else if ltb_ℤ (pos (7 * 24 * hour)) (sub now old.row_submit_time)
    then some locked
    else if after start (now + 15 * minute) || after end (now + 15 * minute)
    then some from_future
    else if ltb_ℤ (pos (24 * hour)) (sub end start)
    then some too_long
    else none

-- The parameters: whether GetStation and GetLine find what is asked for.
module _ (station_known line_known : ℕ → Bool) where
  -- r.buildStationUses(tx, request, trip): the uses that it appends.
  unfoldable pub build_station_uses : List RequestUse → Answer (List StationUse)
  build_station_uses [] = accept []
  build_station_uses (q ∷ qs) =
      let rest = build_station_uses qs in
      elim (use_error station_known line_known q) [
        | some e ↦ refuse e
        | none ↦ elim rest [ refuse e ↦ refuse e | accept us ↦ accept (use_of q ∷ us) ]
      ]

  -- r.getTripToEdit(tx, request, pair) once there is a trip.
  unfoldable pub check_edit : Time → TripRequest → ℕ → TripRow → Answer (Trip × Bool)
  check_edit now request pair old = elim (edit_error now request pair old) [
    | some e ↦ refuse e
    | none ↦ elim (build_station_uses request.request_uses) [
      | refuse e ↦ refuse e
      | accept us ↦ accept (edited_trip now request pair old us, valid old.row_edit_time)
    ]
  ]

  -- r.getTripToEdit(tx, request, pair)
  unfoldable pub get_trip_to_edit : Time → TripRequest → ℕ → List TripRow → Answer (Trip × Bool)
  get_trip_to_edit now request pair rows =
      if length request.request_uses == 0
      then refuse no_uses
      else elim (find_trip request.request_id rows) [
        | none ↦ refuse not_found
        | some old ↦ check_edit now request pair old
      ]

  -- r.Put(c) for an authenticated client, from the request on: the database, and the answer, which
  -- says whether the reward of a first edit is due.
  unfoldable pub put_trip :
      (fails : TripOp → Bool) (commit_fails : Bool) (is_id : ℕ → Bool)
      → Time
      → TripRequest
      → ℕ
      → TripDb
      → TripDb × Answer (Trip × Bool)
  put_trip fails commit_fails is_id now request pair db =
      elim (get_trip_to_edit now request pair db.trips) [
        | refuse e ↦ (db, refuse e)
        | accept (t, had_been_edited) ↦
            let (t', result) = trip_update fails is_id t db in
            elim result [
              | none ↦ (db, refuse update_failed)
              | some db' ↦
                  if commit_fails
                  then (db, refuse commit_failed)
                  else (db', accept (t', not had_been_edited))
            ]
      ]
