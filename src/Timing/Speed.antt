-- ===== src/Timing/Speed.antt =====
-- types/trip.go: Trip.AverageSpeed; compute/avgspeed.go: AverageSpeedFilter and AverageSpeedCached. The
-- distances and the durations are added in int64; the quotient of the two is left to the caller.
use disturbancesmlx.Prelude.{
  ℕ, Bool, true, false, not, ◌||◌, Option, none, some, List, [], ◌∷◌, ℤ, pos, ◌+ℤ◌, length, ltb,
  if◌then◌else◌,
}
use disturbancesmlx.Clock.{Time, Duration, zero_time, is_zero, sub, wrap_int64}
use disturbancesmlx.Timing.Update.{TypicalOp, begin_update, query_trips, some_fails}
use disturbancesmlx.Trips.Model.{StationUseType, interchange, visit, StationUse, Trip}

-- GetConnection(tx, from, to, true) with its WorldLength; `none` is an error.
abbrev pub Lengths : Type 0
Lengths = ℕ → ℕ → Option ℤ

abbrev pub is_skipped : StationUseType → Bool
is_skipped interchange = true
is_skipped visit = true
is_skipped _ = false

-- The variables of the loop: totalDistance, startTime and endTime.
pub record Ride : Type 0 where
  pub distance : ℤ
  pub ride_start : Time
  pub ride_end : Time

unfoldable pub ride_of_uses : Lengths → List StationUse → Ride → Option Ride
ride_of_uses g [] r = some r
ride_of_uses g (source ∷ []) r = some r
ride_of_uses g (source ∷ target ∷ rest) r =
    if source.manual || is_skipped source.use_type || target.manual
    then ride_of_uses g (target ∷ rest) r
    else elim (g source.use_station target.use_station) [
      | none ↦ none
      | some metres ↦ ride_of_uses g (target ∷ rest) (record {
        distance = wrap_int64 (r.distance +ℤ metres);
        ride_start = if is_zero r.ride_start then source.leave_time else r.ride_start;
        ride_end = target.entry_time;
      })
    ]

-- trip.AverageSpeed(node) without its first result; `none` is an error.
unfoldable pub trip_ride : Lengths → Trip → Option (ℤ × Duration)
trip_ride g x =
    if ltb (length x.station_uses) 2
    then none
    else elim (ride_of_uses g x.station_uses
        (record { distance = pos 0; ride_start = zero_time; ride_end = zero_time })) [
          | none ↦ none
          | some r ↦ some (r.distance, sub r.ride_end r.ride_start)
        ]

-- totalDistance and totalTime over the trips that match the filter.
unfoldable pub speed_totals : Lengths → (Trip → Bool) → List Trip → ℤ × Duration → ℤ × Duration
speed_totals g keep [] t = t
speed_totals g keep (x ∷ xs) (metres, time) = speed_totals g keep xs (
    if keep x
    then elim (trip_ride g x) [
      | none ↦ (metres, time)
      | some (d, s) ↦ (wrap_int64 (metres +ℤ d), wrap_int64 (time +ℤ s))
    ]
    else (metres, time))

-- AverageSpeedFilter(node, fromTime, toTime, yieldFor, filter) up to the quotient: `none` is an error,
-- and no trips are told apart from a quotient of zeros.
unfoldable pub average_speed_filter :
    (TypicalOp → Bool) → Lengths → (Trip → Bool) → List Trip → Option (Option (ℤ × Duration))
average_speed_filter fails g keep [] =
    if fails begin_update || fails query_trips then none else some none
average_speed_filter fails g keep (x ∷ xs) =
    if fails begin_update || fails query_trips || some_fails fails (λ s. none) (x ∷ xs)
    then none
    else some (some (speed_totals g keep (x ∷ xs) (pos 0, pos 0)))

-- The two maps of AverageSpeedCached, at one pair of times; a speed is named by a number.
pub record SpeedCache : Type 0 where
  pub cached : Option ℕ
  pub in_progress : Bool

-- What happens to them: a call, and the start and the end of the work that a call starts; `none` is an
-- error of AverageSpeed.
pub data SpeedEvent : Type 0 where
  called begun : SpeedEvent
  ended : Option ℕ → SpeedEvent

unfoldable pub speed_step : SpeedEvent → SpeedCache → SpeedCache
speed_step called s = s
speed_step begun s = record s { in_progress = true }
speed_step (ended none) s = s
speed_step (ended (some v)) s = record { cached = some v; in_progress = false }

-- The result of a call, `none` for ErrInfoNotReady, and whether it starts the work.
unfoldable pub average_speed_cached : SpeedCache → Option ℕ × Bool
average_speed_cached s = elim s.cached [
  | some v ↦ (some v, false)
  | none ↦ (none, not s.in_progress)
]
