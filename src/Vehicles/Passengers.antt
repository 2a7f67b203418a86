-- ===== src/Vehicles/Passengers.antt =====
-- compute/vehiclehandler.go: where passengers were last seen on a train, and how far away in time a
-- train is that was seen somewhere on the line.
use disturbancesmlx.Prelude.{
  ℕ, zero, suc, ◌+◌, ◌-◌, min, Bool, true, false, ◌&&◌, Option, none, some, List, [], ◌∷◌, ◌++◌,
  length, leb, ◌==◌, if◌then◌else◌,
}
use disturbancesmlx.Clock.{Time}

pub record PassengerReading : Type 0 where
  pub seen_at : Time
  pub station_id : ℕ
  pub direction_id : ℕ

-- VehicleHandler without the cache of durations: the map is an association list, newest key first.
pub record VehicleHandler : Type 0 where
  pub readings : List PassengerReading
  pub presence : List ((ℕ × ℕ) × Time)

-- h.presenceByStationAndDirection[h.getMapKey(station, direction)]
unfoldable pub seen : ℕ → ℕ → List ((ℕ × ℕ) × Time) → Option Time
seen stop direction [] = none
seen stop direction (((s, d), t) ∷ rest) =
    if s == stop && d == direction then some t else seen stop direction rest

-- h.readings[max(0, len-100):len]
unfoldable pub keep_last : ℕ → List PassengerReading → List PassengerReading
keep_last n [] = []
keep_last n (x ∷ xs) = if leb (length (x ∷ xs)) n then x ∷ xs else keep_last n xs

-- h.RegisterTrainPassenger(currentStation, direction), which reads the clock twice.
unfoldable pub register_train_passenger : Time → Time → ℕ → ℕ → VehicleHandler → VehicleHandler
register_train_passenger now now' stop direction h = record {
  readings =
      keep_last 100
        (h.readings ++ record { seen_at = now'; station_id = stop; direction_id = direction } ∷ []);
  presence = ((stop, direction), now) ∷ h.presence;
}

-- A line with its stations in order; one with none makes NextTrainETA panic.
pub record LineStations : Type 0 where
  pub line : ℕ
  pub first : ℕ
  pub others : List ℕ

abbrev pub station_at : ℕ → List ℕ → ℕ
station_at i [] = 0
station_at zero (x ∷ xs) = x
station_at (suc i) (x ∷ xs) = station_at i xs

abbrev pub last_of : ℕ → List ℕ → ℕ
last_of x [] = x
last_of x (y ∷ ys) = last_of y ys

-- The first loop: the line that ends in the direction, the last such line of the station, and
-- whether the direction is its last station.
unfoldable pub choose_line :
    ℕ → Option (LineStations × Bool) → List LineStations → Option (LineStations × Bool)
choose_line direction chosen [] = chosen
choose_line direction chosen (l ∷ ls) =
    choose_line direction
      (if l.first == direction
        then some (l, false)
        else if last_of l.first l.others == direction
        then some (l, true)
        else chosen)
      ls

-- The cursor of the loop that looks for the station.
unfoldable pub index_of : ℕ → List ℕ → ℕ
index_of stop [] = 0
index_of stop (x ∷ xs) = if x == stop then 0 else suc (index_of stop xs)

-- types.Connection, of which only the times matter here.
pub record ConnectionTimes : Type 0 where
  pub typical_seconds : ℕ
  pub typical_stop_seconds : ℕ

-- getConnectionDuration(from, to), with the cached durations and the connections of the database.
unfoldable pub connection_duration :
    (cached : ℕ → ℕ → Option ℕ) → (connection : ℕ → ℕ → Option ConnectionTimes) → ℕ → ℕ → ℕ
connection_duration cached connection from to = elim (cached from to) [
  | some s ↦ s
  | none ↦ elim (connection from to) [
    | none ↦ 0
    | some c ↦ c.typical_seconds + c.typical_stop_seconds
  ]
]

-- The parameters: the durations that getConnectionDuration gives, and the stations of the line.
module _ (duration : ℕ → ℕ → ℕ) (stations : List ℕ) where
  -- The loops over the hops of a ride, which are counted before they are taken.
  unfoldable pub ride_up : ℕ → ℕ → ℕ
  ride_up i zero = 0
  ride_up i (suc hops) =
      duration (station_at i stations) (station_at (suc i) stations) + ride_up (suc i) hops

  unfoldable pub ride_down : ℕ → ℕ → ℕ
  ride_down i zero = 0
  ride_down i (suc hops) =
      duration (station_at i stations) (station_at (i - 1) stations) + ride_down (i - 1) hops

  abbrev last_index : ℕ
  last_index = length stations - 1

  -- getTimeDistance(trainAtIdx, movingUp, trainMovingUp) for the user at the index `user`.
  unfoldable pub time_distance : ℕ → ℕ → Bool → Bool → ℕ
  time_distance user i true true = ride_up i (min user last_index - i)
  time_distance user i false false = ride_down i (i - user)
  time_distance user i true false = ride_down i i + 120 + ride_up 0 (min user last_index)
  time_distance user i false true =
      ride_up i (last_index - i) + 120 + ride_down last_index (last_index - user)
