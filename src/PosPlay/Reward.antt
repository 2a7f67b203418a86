-- ===== src/PosPlay/Reward.antt =====
-- posplay/rewards.go: the points that a trip is worth. The float64 products are rounded exactly
-- here, as they are in the code: no product of a multiple of 7 by 1.2 ends in a half.
use disturbancesmlx.Prelude.{
  ℕ, ◌+◌, ◌*◌, ◌/◌, Bool, false, not, ◌&&◌, ◌||◌, List, [], ◌∷◌, length, ltb, leb, ◌==◌,
  if◌then◌else◌,
}
use disturbancesmlx.Clock.{Time, hour}
use disturbancesmlx.Trips.Model.{is_interchange, StationUse, Trip}
use disturbancesmlx.Vehicles.Passengers.{seen}

abbrev pub is_key : ℕ → List ℕ → Bool
is_key x [] = false
is_key x (y ∷ ys) = y == x || is_key x ys

-- The keys of the map that the loop fills.
unfoldable pub visit_all : List ℕ → List ℕ → List ℕ
visit_all seen [] = seen
visit_all seen (x ∷ xs) = visit_all (if is_key x seen then seen else x ∷ seen) xs

abbrev pub stations_of : List StationUse → List ℕ
stations_of [] = []
stations_of (u ∷ us) = u.use_station ∷ stations_of us

abbrev pub interchanges_of : List StationUse → List ℕ
interchanges_of [] = []
interchanges_of (u ∷ us) =
    if is_interchange u.use_type then u.use_station ∷ interchanges_of us else interchanges_of us

abbrev pub on_peak : ℕ → Bool
on_peak hour = (leb 7 hour && ltb hour 9) || (leb 16 hour && ltb hour 19)

pub record Reward : Type 0 where
  pub xp : ℕ
  pub station_count : ℕ
  pub interchange_count : ℕ
  pub off_peak : Bool

-- computeTripXPReward(trip); `hour_of` is the hour of a time in the zone of the network.
unfoldable pub compute_reward : (Time → ℕ) → Trip → Reward
compute_reward hour_of t =
    let n = length (visit_all [] (stations_of t.station_uses)) in
    let m = length (visit_all [] (interchanges_of t.station_uses)) in
    if ltb n 2
    then record { xp = 0; station_count = n; interchange_count = m; off_peak = false }
    else (let base = 7 * n + 7 * m in
        let peak = on_peak (hour_of t.start_time) in
        record {
          xp = if peak then base else (12 * base + 5) / 10;
          station_count = n;
          interchange_count = m;
          off_peak = not peak;
        })
