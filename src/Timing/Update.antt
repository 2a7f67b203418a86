-- ===== src/Timing/Update.antt =====
-- compute/typseconds.go: UpdateTypicalSeconds, which writes the averages back.
use disturbancesmlx.Prelude.{
  ℕ, suc, ◌+◌, ◌*◌, ◌/◌, Bool, false, ◌&&◌, ◌||◌, Option, none, some, List, [], ◌∷◌, ℤ, pos, negsuc,
  sub_ℕ, ◌+ℤ◌, ◌-ℤ◌, ◌*ℤ◌, ltb, ◌==◌, if◌then◌else◌,
}
use disturbancesmlx.Clock.{second, wrap_int64}
use disturbancesmlx.Timing.Tally.{
  Quantity, crossing, stopping, waiting, changing, Tally, no_samples, Graph, process_trips,
}
use disturbancesmlx.Trips.Model.{Trip}

-- types.Connection and types.Transfer, as far as they are read or written here.
pub record Connection : Type 0 where
  pub connection_id : ℕ
  pub from_station : ℕ
  pub to_station : ℕ
  pub typical_seconds : ℤ
  pub typical_stop_seconds : ℤ
  pub typical_waiting_seconds : ℤ

pub record Transfer : Type 0 where
  pub transfer_id : ℕ
  pub at_station : ℕ
  pub to_line : ℕ
  pub transfer_seconds : ℤ

pub data TypicalOp : Type 0 where
  begin_update query_trips commit_update : TypicalOp
  get_trip : ℕ → TypicalOp
  update_connection : Quantity → ℕ → TypicalOp
  update_transfer : ℕ → TypicalOp

-- int(math.Round(n / d)), which rounds halves away from zero.
unfoldable pub round_ratio : ℤ → ℕ → ℤ
round_ratio (pos n) d = pos ((2 * n + d) / (2 * d))
round_ratio (negsuc n) d = sub_ℕ 0 ((2 * suc n + d) / (2 * d))

abbrev pub set_seconds : Quantity → ℤ → Connection → Connection
set_seconds crossing v c = record c { typical_seconds = v }
set_seconds stopping v c = record c { typical_stop_seconds = v }
set_seconds waiting v c = record c { typical_waiting_seconds = v }
set_seconds changing v c = c

abbrev pub cons_row {ℓ} : {A : Type ℓ} → A → Option (List A) → Option (List A)
cons_row x none = none
cons_row x (some xs) = some (x ∷ xs)

module _ (fails : TypicalOp → Bool) (lines_of : ℕ → Option (List ℕ)) where
  -- A loop over one of the maps of connections; `none` is an error.
  unfoldable pub update_rows : Quantity → Tally → List Connection → Option (List Connection)
  update_rows q t [] = some []
  update_rows q t (c ∷ cs) =
      let rest = update_rows q t cs in
      let (num, den) = t (record { quantity = q; edge = c.connection_id }) in
      if ltb den 2
      then cons_row c rest
      else if fails (update_connection q c.connection_id)
      then none
      else cons_row (set_seconds q (round_ratio num (den * second)) c) rest

  abbrev pub on_line : ℕ → List ℕ → Bool
  on_line l [] = false
  on_line l (x ∷ xs) = x == l || on_line l xs

  -- The sum of the stops of outgoingDestConnections, and their number.
  unfoldable pub stop_sum : Tally → Transfer → List Connection → Option (ℤ × ℕ)
  stop_sum t tr [] = some (pos 0, 0)
  stop_sum t tr (c ∷ cs) =
      let rest = stop_sum t tr cs in
      if ltb 0 (t (record { quantity = stopping; edge = c.connection_id })).1
        && c.from_station == tr.at_station
      then elim (lines_of c.to_station) [
        | none ↦ none
        | some ls ↦
            if on_line tr.to_line ls
            then elim rest [
              | none ↦ none
              | some (s, n) ↦ some (wrap_int64 (c.typical_stop_seconds +ℤ s), n + 1)
            ]
            else rest
      ]
      else rest

  -- average, less the average of the stops
  abbrev pub transfer_average : ℤ × ℕ → ℤ × ℕ → ℤ
  transfer_average (num, den) (stops, n) =
      if n == 0
      then round_ratio num (den * second)
      else round_ratio (num *ℤ pos n -ℤ stops *ℤ pos (den * second)) (den * second * n)

  -- The loop over the map of transfers.
  unfoldable pub update_transfers : Tally → List Connection → List Transfer → Option (List Transfer)
  update_transfers t cs [] = some []
  update_transfers t cs (tr ∷ trs) =
      let rest = update_transfers t cs trs in
      let sample = t (record { quantity = changing; edge = tr.transfer_id }) in
      if ltb sample.1 2 then cons_row tr rest else elim (stop_sum t tr cs) [
        | none ↦ none
        | some stops ↦
            if fails (update_transfer tr.transfer_id)
            then none
            else cons_row (record tr { transfer_seconds = transfer_average sample stops }) rest
      ]

  abbrev pub some_fails : List Trip → Bool
  some_fails [] = false
  some_fails (x ∷ xs) = fails (get_trip x.trip_id) || some_fails xs

  -- The three loops over the connections, one after the other.
  unfoldable pub update_connections : Tally → List Connection → Option (List Connection)
  update_connections t cs = elim (update_rows crossing t cs) [
    | none ↦ none
    | some cs1 ↦ elim (update_rows stopping t cs1) [
      | none ↦ none
      | some cs2 ↦ update_rows waiting t cs2
    ]
  ]

  -- What follows the loop over the trips, which fails if the query of some trip does.
  unfoldable pub write_averages :
      Tally → Bool → List Connection → List Transfer → Option (List Connection × List Transfer)
  write_averages t trip_failed cs trs =
      if fails begin_update || fails query_trips || trip_failed
      then none
      else elim (update_connections t cs) [
        | none ↦ none
        | some cs' ↦ elim (update_transfers t cs' trs) [
          | none ↦ none
          | some trs' ↦ if fails commit_update then none else some (cs', trs')
        ]
      ]

  -- UpdateTypicalSeconds(node, yieldFor) with the trips of the past month; `none` is an error, after which
  -- the tables are as they were.
  unfoldable pub update_typical_seconds :
      Graph → List Trip → List Connection → List Transfer → Option (List Connection × List Transfer)
  update_typical_seconds g trips cs trs =
      write_averages (process_trips g trips no_samples) (some_fails trips) cs trs
