-- ===== src/Timing/Tally.antt =====
-- compute/typseconds.go: what the trips of a month say about the durations of connections and
-- transfers. The sums are exact, in nanoseconds, where the code has float64 seconds.
use disturbancesmlx.Prelude.{
  ℕ, ◌+◌, ◌*◌, Bool, true, false, ◌&&◌, Option, none, some, List, [], ◌∷◌, ℤ, pos, ◌+ℤ◌, ◌-ℤ◌,
  ltb_ℤ, ◌==◌, if◌then◌else◌,
}
use disturbancesmlx.Clock.{second, sub}
use disturbancesmlx.Trips.Model.{
  StationUseType, network_entry, gone_through, is_interchange, StationUse, Trip,
}

-- The maps, each with a numerator and a denominator; connections and transfers are named by numbers.
pub data Quantity : Type 0 where
  crossing stopping waiting changing : Quantity

pub record Key : Type 0 where
  pub quantity : Quantity
  pub edge : ℕ

abbrev pub same_quantity : Quantity → Quantity → Bool
same_quantity crossing crossing = true
same_quantity stopping stopping = true
same_quantity waiting waiting = true
same_quantity changing changing = true
same_quantity _ _ = false

-- The numerator and the denominator of every key, 0 where the map has none.
abbrev pub Tally : Type 0
Tally = Key → ℤ × ℕ

abbrev pub no_samples : Tally
no_samples k = (pos 0, 0)

-- numerator[key] += value; denominator[key]++
unfoldable pub add_sample : Key → ℤ → Tally → Tally
add_sample key value t k =
    if same_quantity key.quantity k.quantity && key.edge == k.edge
    then ((t k).0 +ℤ value, (t k).1 + 1)
    else t k

-- GetConnection(tx, from, to, true) and GetTransfer(tx, station, source, target); `none` is an error.
-- A stored use of an interchange has both lines.
pub record Graph : Type 0 where
  pub connection_of : ℕ → ℕ → Option ℕ
  pub transfer_of : ℕ → Option ℕ → Option ℕ → Option ℕ

abbrev pub is_entry : StationUseType → Bool
is_entry network_entry = true
is_entry _ = false

abbrev pub is_through : StationUseType → Bool
is_through gone_through = true
is_through _ = false

-- seconds - 20 and seconds + 20
abbrev pub less_20 : ℤ → ℤ
less_20 d = d -ℤ pos (20 * second)

abbrev pub plus_20 : ℤ → ℤ
plus_20 d = d +ℤ pos (20 * second)

-- processTransfer(transfer, use)
unfoldable pub process_transfer : ℕ → StationUse → Tally → Tally
process_transfer transfer u t =
    let d = sub u.leave_time u.entry_time in
    if ltb_ℤ d (pos (15 * 60 * second))
    then add_sample (record { quantity = changing; edge = transfer }) (less_20 d) t
    else t

-- The two parts of processConnection(connection, sourceUse, targetUse).
unfoldable pub process_crossing : ℕ → StationUse → StationUse → Tally → Tally
process_crossing connection source target t =
    let d = sub target.entry_time source.leave_time in
    if ltb_ℤ d (pos (10 * 60 * second))
    then add_sample (record { quantity = crossing; edge = connection }) (plus_20 d) t
    else t

unfoldable pub process_wait : ℕ → StationUse → Tally → Tally
process_wait connection source t =
    let d = sub source.leave_time source.entry_time in
    if is_entry source.use_type && ltb_ℤ d (pos (60 * 3 * second))
    then add_sample (record { quantity = waiting; edge = connection }) (less_20 d) t
    else if is_through source.use_type && ltb_ℤ d (pos (60 * 3 * second))
    then add_sample (record { quantity = stopping; edge = connection }) (less_20 d) t
    else t

abbrev pub process_connection : ℕ → StationUse → StationUse → Tally → Tally
process_connection connection source target t =
    process_wait connection source (process_crossing connection source target t)

-- The use after the target was entered less than a second after it: the target is an extension.
abbrev pub forced : StationUse → List StationUse → Bool
forced target [] = false
forced target (v ∷ vs) = ltb_ℤ (sub v.entry_time target.entry_time) (pos second)

module _ (g : Graph) where
  -- The pair of uses of one round, after the transfer.
  unfoldable pub process_pair : StationUse → StationUse → List StationUse → Tally → Tally
  process_pair source target rest t =
      if target.manual then t else elim (g.connection_of source.use_station target.use_station) [
        | none ↦ t
        | some c ↦ if forced target rest then t else process_connection c source target t
      ]

  -- The transfer of one round; `none` leaves the trip.
  unfoldable pub process_change : StationUse → Tally → Option Tally
  process_change source t =
      if is_interchange source.use_type
      then elim (g.transfer_of source.use_station source.source_line source.target_line) [
        | none ↦ none
        | some tr ↦ some (process_transfer tr source t)
      ]
      else some t

  -- processTrip, over the uses of the trip.
  unfoldable pub process_uses : List StationUse → Tally → Tally
  process_uses [] t = t
  process_uses (source ∷ []) t = t
  process_uses (source ∷ target ∷ rest) t =
      if source.manual then process_uses (target ∷ rest) t else elim (process_change source t) [
        | none ↦ t
        | some t' ↦ process_uses (target ∷ rest) (process_pair source target rest t')
      ]

  -- The loop over the trips.
  unfoldable pub process_trips : List Trip → Tally → Tally
  process_trips [] t = t
  process_trips (x ∷ xs) t = process_trips xs (process_uses x.station_uses t)
