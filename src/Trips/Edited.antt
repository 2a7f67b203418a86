-- ===== src/Trips/Edited.antt =====
-- Which edits Trip.Put accepts, and what an accepted edit changes.
use disturbancesmlx.Prelude.{
  ℕ, ◌+◌, ◌*◌, ◌≤◌, ◌≡◌, ◌⊎◌, Bool, List, refl, inl, inr, none, arith, Option-cases, not, some,
  Bool-cases, sym, ◌∙◌, length, ◌==◌, upsert, ap, [], ◌∷◌,
}
use disturbancesmlx.Clock.{Time, minute, hour, sub, zero_time}
use disturbancesmlx.Disturbances.Model.{valid}
use disturbancesmlx.Trips.Edit.{
  TripRequest, EditError, refuse, accept, first_entry, last_leave, edited_trip, check_edit,
  edit_error, build_station_uses, no_uses, not_found, Answer, Answer-cases, find_trip,
  get_trip_to_edit, put_trip,
}
use disturbancesmlx.Trips.Model.{StationUse, Trip, TripRow, TripDb}
use disturbancesmlx.Trips.Stored.{OrderedFrom, Merged, trip_update_lem, trip_update-trips}
use disturbancesmlx.Trips.Update.{TripOp, trip_update, trip_row}
use disturbancesmlx.Vehicles.NextTrain.{answer}

-- The trip is the pair's own, was submitted in the last seven days, ends at most fifteen minutes
-- from now and took at most a day.
abbrev pub Editable : Time → TripRequest → ℕ → TripRow → Type 0
Editable now request pair old =
    (old.row_submitter ≡ pair)
    × (now ≤ old.row_submit_time + 7 * 24 * hour)
    × (first_entry request.request_uses ≤ now + 15 * minute)
    × (last_leave request.request_uses ≤ now + 15 * minute)
    × (last_leave request.request_uses ≤ first_entry request.request_uses + 24 * hour)

edit_error-none :
    (now : Time) (request : TripRequest) (pair : ℕ) (old : TripRow)
    → edit_error now request pair old ≡ none
    → Editable now request pair old
unfolding sub
edit_error-none now request pair old q = ground arith

trip_update-submitter :
    (fails : TripOp → Bool) (is_id : ℕ → Bool) (t : Trip) (db : TripDb)
    → (trip_update fails is_id t db).0.submitter ≡ t.submitter
unfolding trip_update
trip_update-submitter fails is_id t db = ground arith

trip_update-submit_time :
    (fails : TripOp → Bool) (is_id : ℕ → Bool) (t : Trip) (db : TripDb)
    → (trip_update fails is_id t db).0.submit_time ≡ t.submit_time
unfolding trip_update
trip_update-submit_time fails is_id t db = ground arith

-- The row of an edited trip: that of the request, edited now, with the submitter and the time of
-- submission that it had.
abbrev pub edited_row : Time → TripRequest → TripRow → TripRow
edited_row now request old = record {
  row_trip = request.request_id;
  row_start = first_entry request.request_uses;
  row_end = last_leave request.request_uses;
  row_submitter = old.row_submitter;
  row_submit_time = old.row_submit_time;
  row_edit_time = some now;
  row_confirmed = request.request_confirmed;
}

-- A row is found under its own key after it is stored, and the other rows are found as before.
find_trip-upsert :
    (row : TripRow) (rows : List TripRow)
    → find_trip row.row_trip (upsert (λ r. r.row_trip) row rows) ≡ some row
unfolding upsert
find_trip-upsert row [] = ground arith
find_trip-upsert row (r ∷ rows) = elim (Bool-cases (r.row_trip == row.row_trip)) [
  | inl e ↦ rw e (ground arith)
  | inr e ↦ rw (e, find_trip, e) (find_trip-upsert row rows)
]

find_trip-others :
    (id : ℕ) (row : TripRow) (rows : List TripRow)
    → ¬ (id ≡ row.row_trip)
    → find_trip id (upsert (λ r. r.row_trip) row rows) ≡ find_trip id rows
unfolding upsert
find_trip-others id row [] other = ground arith
find_trip-others id row (r ∷ rows) other = elim (Bool-cases (r.row_trip == row.row_trip)) [
  | inl e ↦ rw e (ground arith)
  | inr e ↦ rw (e, find_trip-others id row rows other) refl
]

-- The database and the answer of an edit.
abbrev pub EditOutcome : Time → TripRequest → ℕ → TripDb → TripDb → Answer (Trip × Bool) → Type 0
EditOutcome now request pair db db' (refuse e) = db' ≡ db
EditOutcome now request pair db db' (accept (t, first_edit)) =
    (old : TripRow) × (find_trip request.request_id db.trips ≡ some old)
    × Editable now request pair old
    × (first_edit ≡ not (valid old.row_edit_time))
    × (t.submitter ≡ old.row_submitter)
    × (t.submit_time ≡ old.row_submit_time)
    × (find_trip request.request_id db'.trips ≡ some (edited_row now request old))
    × ((id : ℕ) → ¬ (id ≡ request.request_id) → find_trip id db'.trips ≡ find_trip id db.trips)
    × OrderedFrom zero_time t.station_uses
    × Merged request.request_id t.station_uses db.uses db'.uses

-- The rows of the trips after a stored edit.
edited_trips :
    (fails : TripOp → Bool) (is_id : ℕ → Bool) (now : Time) (request : TripRequest) (pair : ℕ)
    (old : TripRow) (us : List StationUse) (db db' : TripDb)
    → (trip_update fails is_id (edited_trip now request pair old us) db).1 ≡ some db'
    → (find_trip request.request_id db'.trips
        ≡ some (edited_row now request (record old { row_submitter = pair })))
      × ((id : ℕ) → ¬ (id ≡ request.request_id) → find_trip id db'.trips ≡ find_trip id db.trips)
edited_trips fails is_id now request pair old us db db' u =
    let t = edited_trip now request pair old us in
    let stored = trip_update-trips fails is_id t db db' u in
    (
      ap (find_trip request.request_id) stored ∙ find_trip-upsert (trip_row t) db.trips,
      λ id other. ap (find_trip id) stored ∙ find_trip-others id (trip_row t) db.trips other,
    )

module _ (station_known line_known : ℕ → Bool) where
  check_edit_cases :
      (now : Time) (request : TripRequest) (pair : ℕ) (old : TripRow)
      → ((e : EditError) × (check_edit station_known line_known now request pair old ≡ refuse e))
        ⊎ ((us : List StationUse) × Editable now request pair old
            × (check_edit station_known line_known now request pair old
                ≡ accept (edited_trip now request pair old us, valid old.row_edit_time)))
  unfolding check_edit
  check_edit_cases now request pair old = elim (Option-cases (edit_error now request pair old)) [
    | inr (e, q) ↦ inl (e, rw (q, check_edit))
    | inl q ↦
        elim (Answer-cases (build_station_uses station_known line_known request.request_uses)) [
          | inl (e, b) ↦ inl (e, rw (q, check_edit, b))
          | inr (us, b) ↦ inr (us, edit_error-none now request pair old q, rw (q, check_edit, b))
        ]
  ]

  get_trip_cases :
      (now : Time) (request : TripRequest) (pair : ℕ) (rows : List TripRow)
      → ((e : EditError) × (get_trip_to_edit station_known line_known now request pair rows
            ≡ refuse e))
        ⊎ ((old : TripRow) × (us : List StationUse) × (find_trip request.request_id rows ≡ some old)
            × Editable now request pair old
            × (get_trip_to_edit station_known line_known now request pair rows
                ≡ accept (edited_trip now request pair old us, valid old.row_edit_time)))
  unfolding get_trip_to_edit
  get_trip_cases now request pair rows = elim (Bool-cases (length request.request_uses == 0)) [
    | inl q ↦ inl (no_uses, rw (q, get_trip_to_edit))
    | inr q ↦ elim (Option-cases (find_trip request.request_id rows)) [
      | inl f ↦ inl (not_found, rw (q, get_trip_to_edit, f))
      | inr (old, f) ↦
          let found : get_trip_to_edit station_known line_known now request pair rows
              ≡ check_edit station_known line_known now request pair old =
            rw (q, get_trip_to_edit, f) refl in
          elim (check_edit_cases now request pair old) [
            | inl (e, r) ↦ inl (e, found ∙ r)
            | inr (vs, ok, r) ↦ inr (old, vs, f, ok, found ∙ r)
          ]
    ]
  ]

  -- An edit is refused with the database unchanged, or the trip is found in it with the times of the
  -- request, edited now, with the submitter and the time of submission that it had, and every other
  -- trip is found as before. The trip is then the pair's own, was submitted in the last seven days,
  -- neither begins nor ends more than fifteen minutes from now and takes at most a day, its uses are
  -- in order, and the reward is due on the first edit only.
  pub put_trip_lem :
      (fails : TripOp → Bool) (commit_fails : Bool) (is_id : ℕ → Bool) (now : Time)
      (request : TripRequest) (pair : ℕ) (db : TripDb)
      → let (db', answer) =
          put_trip station_known line_known fails commit_fails is_id now request pair db in
        EditOutcome now request pair db db' answer
  unfolding put_trip
  put_trip_lem fails commit_fails is_id now request pair db =
      elim (get_trip_cases now request pair db.trips) [
        | inl (e, q) ↦ rw (q, put_trip) refl
        | inr (old, us, f, ok, q) ↦
            let t = edited_trip now request pair old us in
            elim (Option-cases (trip_update fails is_id t db).1) [
              | inl u ↦ rw (q, put_trip, u) refl
              | inr (db', u) ↦ elim (Bool-cases commit_fails) [
                | inl c ↦ rw (q, put_trip, u, c) refl
                | inr c ↦
                    let (ordered, moved, fixed, merged) = trip_update_lem fails is_id t db db' u in
                    let (mine, kept) = edited_trips fails is_id now request pair old us db db' u in
                    rw (q, put_trip, u, c)
                      (
                        old,
                        f,
                        ok,
                        refl,
                        trip_update-submitter fails is_id t db ∙ sym ok.0,
                        trip_update-submit_time fails is_id t db,
                        mine
                            ∙ ap
                                (λ p.
                                  some (edited_row now request (record old { row_submitter = p })))
                                (sym ok.0),
                        kept,
                        ordered,
                        merged,
                      )
              ]
            ]
      ]
