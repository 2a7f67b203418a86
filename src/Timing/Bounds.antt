-- ===== src/Timing/Bounds.antt =====
-- The typical durations stay below their limits.
use disturbancesmlx.Prelude.{
  ℕ, ◌*◌, ◌≡◌, subst, inl, inr, Bool, ◌||◌, Option, none, some, List, [], ◌∷◌, arith, ℤ, pos, ◌≤ℤ◌,
  ltb, Bool-cases, Option-cases,
}
use disturbancesmlx.Clock.{second}
use disturbancesmlx.Timing.Average.{
  WithinLimits, process_trips-WithinLimits, WithinLimits-at, round_ratio-bound,
}
use disturbancesmlx.Timing.Samples.{limit_seconds}
use disturbancesmlx.Timing.Tally.{
  Quantity, crossing, stopping, waiting, changing, Tally, Graph, Key,
}
use disturbancesmlx.Timing.Update.{
  Connection, Transfer, TypicalOp, update_connection, set_seconds, cons_row, update_rows,
  update_connections, update_typical_seconds, begin_update, query_trips, commit_update,
  update_transfers, write_averages,
}
use disturbancesmlx.Trips.Model.{Trip}

-- The durations of a connection are at most 620 seconds for the ride and 160 for the stop and the wait.
pub record IsShort (c : Connection) : Type 0 where
  pub ride : c.typical_seconds ≤ℤ pos (limit_seconds crossing)
  pub stop : c.typical_stop_seconds ≤ℤ pos (limit_seconds stopping)
  pub wait : c.typical_waiting_seconds ≤ℤ pos (limit_seconds waiting)

abbrev pub AllShort : List Connection → Type 0
AllShort [] = Unit
AllShort (c ∷ cs) = IsShort c × AllShort cs

abbrev pub ShortIfSome : Option (List Connection) → Type 0
ShortIfSome none = Unit
ShortIfSome (some cs) = AllShort cs

abbrev ShortResult : Option (List Connection × List Transfer) → Type 0
ShortResult none = Unit
ShortResult (some (cs, trs)) = AllShort cs

set_seconds-IsShort :
    (q : Quantity) (v : ℤ) (c : Connection)
    → v ≤ℤ pos (limit_seconds q)
    → IsShort c
    → IsShort (set_seconds q v c)
set_seconds-IsShort crossing v c h s = record { ride = h; stop = s.stop; wait = s.wait }
set_seconds-IsShort stopping v c h s = record { ride = s.ride; stop = h; wait = s.wait }
set_seconds-IsShort waiting v c h s = record { ride = s.ride; stop = s.stop; wait = h }
set_seconds-IsShort changing v c h s = s

cons_row-short :
    (c : Connection) (o : Option (List Connection))
    → IsShort c
    → ShortIfSome o
    → ShortIfSome (cons_row c o)
cons_row-short c none s h = tt
cons_row-short c (some cs) s h = (s, h)

module _ (fails : TypicalOp → Bool) (lines_of : ℕ → Option (List ℕ)) where
  module _ (t : Tally) (within : WithinLimits t) where
    update_rows-short :
        (q : Quantity) (cs : List Connection)
        → AllShort cs
        → ShortIfSome (update_rows fails lines_of q t cs)
    unfolding update_rows
    update_rows-short q [] h = tt
    update_rows-short q (c ∷ cs) h =
        let key : Key = record { quantity = q; edge = c.connection_id } in
        let rest = update_rows-short q cs h.1 in
        elim (Bool-cases (ltb (t key).1 2)) [
          | inl e ↦ rw e (cons_row-short c _ h.0 rest)
          | inr e ↦ elim (Bool-cases (fails (update_connection q c.connection_id))) [
            | inl f ↦ rw (e, f) tt
            | inr f ↦
                rw (e, f)
                  (cons_row-short _ _
                    (set_seconds-IsShort q _ c
                      (round_ratio-bound (t key).0 (t key).1 (limit_seconds q) (ground arith)
                        (within_at key))
                      h.0)
                    rest)
          ]
        ]
      where
        within_at : (k : Key) → (t k).0 ≤ℤ pos ((t k).1 * (limit_seconds k.quantity * second))
        within_at k = WithinLimits-at t within k

    update_connections-short :
        (cs : List Connection) → AllShort cs → ShortIfSome (update_connections fails lines_of t cs)
    unfolding update_connections
    update_connections-short cs h = elim (Option-cases (update_rows fails lines_of crossing t cs)) [
      | inl e ↦ rw (e, ShortIfSome) tt
      | inr (cs1, e) ↦
          let h1 = subst ShortIfSome e (update_rows-short crossing cs h) in
          elim (Option-cases (update_rows fails lines_of stopping t cs1)) [
            | inl e' ↦ rw (e, e', ShortIfSome) tt
            | inr (cs2, e') ↦
                rw (e, e', ShortIfSome)
                  (update_rows-short waiting cs2
                    (subst ShortIfSome e' (update_rows-short stopping cs1 h1)))
          ]
    ]

  write_averages-short :
      (t : Tally) (b : Bool) (cs : List Connection) (trs : List Transfer)
      → WithinLimits t
      → AllShort cs
      → ShortResult (write_averages fails lines_of t b cs trs)
  unfolding write_averages
  write_averages-short t b cs trs w h =
      elim (Bool-cases (fails begin_update || fails query_trips || b)) [
        | inl e ↦ rw (e, ShortResult) tt
        | inr e ↦ elim (Option-cases (update_connections fails lines_of t cs)) [
          | inl n ↦ rw (e, n, ShortResult) tt
          | inr (cs', n) ↦ elim (Option-cases (update_transfers fails lines_of t cs' trs)) [
            | inl m ↦ rw (e, n, m, ShortResult) tt
            | inr (trs', m) ↦ elim (Bool-cases (fails commit_update)) [
              | inl c ↦ rw (e, n, m, c, ShortResult) tt
              | inr c ↦
                  rw (e, n, m, c, ShortResult)
                    (subst ShortIfSome n (update_connections-short t w cs h))
            ]
          ]
        ]
      ]

  -- UpdateTypicalSeconds keeps the durations of all connections short: if each has at most 620 seconds for
  -- the ride and 160 seconds for the stop and for the wait, then so has each connection that it writes,
  -- whatever the trips are.
  pub update_typical_seconds-AllShort :
      (g : Graph) (trips : List Trip) (cs cs' : List Connection) (trs trs' : List Transfer)
      → AllShort cs
      → update_typical_seconds fails lines_of g trips cs trs ≡ some (cs', trs')
      → AllShort cs'
  unfolding update_typical_seconds
  update_typical_seconds-AllShort g trips cs cs' trs trs' h run =
      subst ShortResult run (write_averages-short _ _ cs trs (process_trips-WithinLimits g trips) h)
