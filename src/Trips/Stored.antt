-- ===== src/Trips/Stored.antt =====
-- What Trip.Update leaves of the uses of a trip: ordered times, and the rows that are kept.
use disturbancesmlx.Prelude.{
  ℕ, ◌≤◌, ◌≡◌, ◌⊎◌, inl, inr, Bool, false, List, [], ◌∷◌, arith, Has, Bool-cases, sym, ap, true,
  none, some, ◌==◌, if◌then◌else◌, suc, refl, ◌∙◌, Option, not, ◌||◌, upsert, Option-cases,
}
use disturbancesmlx.Clock.{Time, zero_time}
use disturbancesmlx.Disturbances.Phase.{next}
use disturbancesmlx.Trips.Model.{TripRow, StationUse, UseRow, same_use, upsert_use, Trip, TripDb}
use disturbancesmlx.Trips.Update.{
  admit, TripOp, valid_use, use_update, save_uses, begin_trip, insert_trip, commit_trip, trip_row,
  lone_use, trip_update,
}

-- Every use ends no earlier than it begins and begins no earlier than the one before it ends.
abbrev pub OrderedFrom : Time → List StationUse → Type 0
OrderedFrom t [] = Unit
OrderedFrom t (u ∷ us) =
    (t ≤ u.entry_time) × (u.entry_time ≤ u.leave_time) × OrderedFrom u.leave_time us

-- The same uses, with times that are moved forwards if at all.
abbrev pub MovedForward : List StationUse → List StationUse → Type 0
MovedForward [] [] = Unit
MovedForward [] (v ∷ vs) = ⊥
MovedForward (u ∷ us) [] = ⊥
MovedForward (u ∷ us) (v ∷ vs) =
    (v ≡ record u { entry_time = v.entry_time; leave_time = v.leave_time })
    × (u.entry_time ≤ v.entry_time)
    × (u.leave_time ≤ v.leave_time)
    × MovedForward us vs

-- Every use of the list has the key of no row.
abbrev pub Unrelated : ℕ → UseRow → List StationUse → Type 0
Unrelated trip x [] = Unit
Unrelated trip x (u ∷ us) = (same_use x (trip, u) ≡ false) × Unrelated trip x us

-- The rows afterwards are rows of before or uses of the list, and what has another key is kept.
abbrev pub Merged : ℕ → List StationUse → List UseRow → List UseRow → Type 0
Merged trip us rows rows' =
    ((x : UseRow) → Has x rows → Unrelated trip x us → Has x rows')
    × ((x : UseRow) → Has x rows' → Has x rows ⊎ ((x.0 ≡ trip) × Has x.1 us))

upsert_use_keeps :
    (y x : UseRow) (rows : List UseRow)
    → Has x rows
    → same_use x y ≡ false
    → Has x (upsert_use y rows)
upsert_use_keeps y x [] m e = absurd m
upsert_use_keeps y x (z ∷ rows) (inl q) e =
    let other : same_use z y ≡ false = rw q e in rw other (inl q)
upsert_use_keeps y x (z ∷ rows) (inr m) e = elim (Bool-cases (same_use z y)) [
  | inl q ↦ rw q (inr m)
  | inr q ↦ rw q (inr (upsert_use_keeps y x rows m e))
]

upsert_use_new :
    (y x : UseRow) (rows : List UseRow) → Has x (upsert_use y rows) → Has x rows ⊎ (y ≡ x)
upsert_use_new y x [] (inl q) = inr q
upsert_use_new y x [] (inr m) = absurd m
upsert_use_new y x (z ∷ rows) m = split (upsert_use_new y x rows) (same_use z y) m
  where
    split :
        (Has x (upsert_use y rows) → Has x rows ⊎ (y ≡ x))
        → (b : Bool) → Has x (if b then y ∷ rows else z ∷ upsert_use y rows)
        → Has x (z ∷ rows) ⊎ (y ≡ x)
    split rest true (inl q) = inr q
    split rest true (inr k) = inl (inr k)
    split rest false (inl q) = inl (inl q)
    split rest false (inr k) = elim (rest k) [ inl h ↦ inl (inr h) | inr h ↦ inr h ]

-- What the corrections do to a use that the loop comes to.
record Admitted (next : Time) (u v : StationUse) : Type 0 where
  from_next : next ≤ v.entry_time
  in_order : v.entry_time ≤ v.leave_time
  same : v ≡ record u { entry_time = v.entry_time; leave_time = v.leave_time }
  entry_later : u.entry_time ≤ v.entry_time
  leave_later : u.leave_time ≤ v.leave_time
  kept : next ≤ u.entry_time → u.entry_time ≤ u.leave_time → v ≡ u

admit-Admitted :
    (first : Bool) (next : Time) (u : StationUse)
    → (first ≡ true → next ≡ 0)
    → Admitted next u (admit first next u)
unfolding admit
admit-Admitted first next u h = record {
  from_next = ground arith;
  in_order = ground arith;
  same = refl;
  entry_later = ground arith;
  leave_later = ground arith;
  kept = λ a b. ground arith;
}

-- What a run of the loop that stores its uses has stored.
abbrev Saved : Time → ℕ → List StationUse → List UseRow → List StationUse → List UseRow → Type 0
Saved next trip us rows vs rows' =
    OrderedFrom next vs
    × MovedForward us vs
    × Merged trip vs rows rows'
    × (OrderedFrom next us → vs ≡ us)

use_update_cases :
    (fails : TripOp → Bool) (i trip : ℕ) (u : StationUse) (rows : List UseRow)
    → (use_update fails i trip u rows ≡ none)
      ⊎ ((use_update fails i trip u rows ≡ some (upsert_use (trip, u) rows)) × (valid_use u ≡ true))
unfolding use_update
use_update_cases fails i trip u rows = ground arith

Merged-cons :
    (trip : ℕ) (v : StationUse) (vs : List StationUse) (rows rows' : List UseRow)
    → Merged trip vs (upsert_use (trip, v) rows) rows'
    → Merged trip (v ∷ vs) rows rows'
Merged-cons trip v vs rows rows' m = (
  λ x h k. m.0 x (upsert_use_keeps (trip, v) x rows h k.0) k.1,
  λ x h. elim (m.1 x h) [
    | inl old ↦ elim (upsert_use_new (trip, v) x rows old) [
      | inl h ↦ inl h
      | inr e ↦ inr (sym (ap (λ (y : UseRow). y.0) e), inl (ap (λ (y : UseRow). y.1) e))
    ]
    | inr (e, new) ↦ inr (e, inr new)
  ],
)

Saved-cons :
    (next : Time) (trip : ℕ) (u v : StationUse) (us vs : List StationUse) (rows rows' : List UseRow)
    → Admitted next u v
    → Saved v.leave_time trip us (upsert_use (trip, v) rows) vs rows'
    → Saved next trip (u ∷ us) rows (v ∷ vs) rows'
Saved-cons next trip u v us vs rows rows' a (ordered, moved, merged, fixed) = (
  (a.from_next, a.in_order, ordered),
  (a.same, a.entry_later, a.leave_later, moved),
  Merged-cons trip v vs rows rows' merged,
  λ o. let e : v ≡ u = a.kept o.0 o.1 in ap (λ w. w ∷ vs) e ∙ ap (◌∷◌ u) (fixed (rw e o.2)),
)

save_uses_lem :
    (fails : TripOp → Bool) (i : ℕ) (next : Time) (trip : ℕ) (us : List StationUse)
    (rows rows' : List UseRow)
    → (i ≡ 0 → next ≡ 0)
    → (save_uses fails i next trip us rows).1 ≡ some rows'
    → Saved next trip us rows (save_uses fails i next trip us rows).0 rows'
unfolding save_uses
save_uses_lem fails i next trip [] rows rows' h q =
    let e : rows ≡ rows' = cc in (tt, tt, (λ x m k. rw (← e) m, λ x m. inl (rw e m)), λ _. refl)
save_uses_lem fails i next trip (u ∷ us) rows rows' h q =
    elim (use_update_cases fails i trip (admit (i == 0) next u) rows) [
      | inl e ↦
          let fail : save_uses fails i next trip (u ∷ us) rows
              ≡ (admit (i == 0) next u ∷ us, none) =
            rw e refl in
          let bad : ◌≡◌ {A = Option (List UseRow)} none (some rows') =
            sym (ap (λ (y : List StationUse × Option (List UseRow)). y.1) fail) ∙ q in
          cc
      | inr (e, ok) ↦
          let a : Admitted next u (admit (i == 0) next u) =
            admit-Admitted (i == 0) next u (λ t. h (ground arith)) in
          let step : save_uses fails i next trip (u ∷ us) rows ≡ (
            admit (i == 0) next u
                ∷ (save_uses fails (suc i) (admit (i == 0) next u).leave_time trip us
                    (upsert_use (trip, admit (i == 0) next u) rows)).0,
            (save_uses fails (suc i) (admit (i == 0) next u).leave_time trip us
                (upsert_use (trip, admit (i == 0) next u) rows)).1,
          ) =
            rw e refl in
          rw e (
            Saved-cons next trip u (admit (i == 0) next u) us _ rows rows' a (
              save_uses_lem fails (suc i) (admit (i == 0) next u).leave_time trip us
                (upsert_use (trip, admit (i == 0) next u) rows) rows' (λ z. absurd (omega arith))
                (ap (λ (y : List StationUse × Option (List UseRow)). y.1) (sym step) ∙ q)))
    ]

uses_of : Option TripDb → List UseRow
uses_of none = []
uses_of (some d) = d.uses

trip_update_cases :
    (fails : TripOp → Bool) (is_id : ℕ → Bool) (t : Trip) (db : TripDb)
    → ((trip_update fails is_id t db).1 ≡ none)
      ⊎ ((rows : List UseRow) × ((save_uses fails 0 zero_time t.trip_id t.station_uses db.uses).1
            ≡ some rows)
          × (trip_update fails is_id t db ≡ (
            record t {
              station_uses = (save_uses fails 0 zero_time t.trip_id t.station_uses db.uses).0;
            },
            some (record { trips = upsert (λ r. r.row_trip) (trip_row t) db.trips; uses = rows }),
          )))
unfolding trip_update
trip_update_cases fails is_id t db =
    elim (Bool-cases
      (not (is_id t.trip_id) || lone_use t.station_uses || fails begin_trip || fails insert_trip)) [
        | inl e ↦ inl (rw e refl)
        | inr e ↦
            elim (Option-cases (save_uses fails 0 zero_time t.trip_id t.station_uses db.uses).1) [
              | inl q ↦ inl (rw (e, q) refl)
              | inr (rows, q) ↦ elim (Bool-cases (fails commit_trip)) [
                | inl c ↦ inl (rw (e, q, c) refl)
                | inr c ↦ inr (rows, q, rw (e, q, c) refl)
              ]
            ]
      ]

-- The rows of the trips after a stored trip.
pub trip_update-trips :
    (fails : TripOp → Bool) (is_id : ℕ → Bool) (t : Trip) (db db' : TripDb)
    → (trip_update fails is_id t db).1 ≡ some db'
    → db'.trips ≡ upsert (λ r. r.row_trip) (trip_row t) db.trips
trip_update-trips fails is_id t db db' q = elim (trip_update_cases fails is_id t db) [
  | inl e ↦ let bad : ◌≡◌ {A = Option TripDb} none (some db') = sym e ∙ q in cc
  | inr (rows, s, e) ↦ sym (ap (λ (y : Trip × Option TripDb). trips_of y.1) (sym e) ∙ ap trips_of q)
]
  where
    trips_of : Option TripDb → List TripRow
    trips_of none = []
    trips_of (some d) = d.trips

-- When Trip.Update stores a trip, the uses that it leaves are in order of time and none overlaps
-- the next; they are the uses that were given, moved forward in time if at all, and unchanged if
-- they were in order. The stored uses of any other key, those of an earlier version of the same
-- trip included, are kept, and nothing else is stored but the uses of the trip.
pub trip_update_lem :
    (fails : TripOp → Bool) (is_id : ℕ → Bool) (t : Trip) (db db' : TripDb)
    → (trip_update fails is_id t db).1 ≡ some db'
    → let vs = (trip_update fails is_id t db).0.station_uses in
      OrderedFrom zero_time vs
      × MovedForward t.station_uses vs
      × (OrderedFrom zero_time t.station_uses → vs ≡ t.station_uses)
      × Merged t.trip_id vs db.uses db'.uses
unfolding uses_of
trip_update_lem fails is_id t db db' q = elim (trip_update_cases fails is_id t db) [
  | inl e ↦ let bad : ◌≡◌ {A = Option TripDb} none (some db') = sym e ∙ q in cc
  | inr (rows, s, e) ↦
      let (ordered, moved, merged, fixed) =
        save_uses_lem fails 0 zero_time t.trip_id t.station_uses db.uses rows (λ z. refl) s in
      let same : rows ≡ db'.uses =
        ap (λ (y : Trip × Option TripDb). uses_of y.1) (sym e) ∙ ap uses_of q in
      rw (e, ← same) (ordered, moved, fixed, merged)
]
