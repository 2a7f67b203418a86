-- ===== src/Vehicles/NextTrain.antt =====
-- compute/vehiclehandler.go: VehicleHandler.NextTrainETA. Comparisons of float64 seconds with 1.2
-- times a duration are exact here, in nanoseconds.
use disturbancesmlx.Prelude.{
  ℕ, zero, suc, ◌+◌, ◌-◌, ◌*◌, ◌/◌, Bool, true, false, not, ◌&&◌, Option, none, some, List, [], ◌∷◌,
  ℤ, pos, negsuc, pos_part, sub_ℕ, ◌-ℤ◌, ◌*ℤ◌, ltb_ℤ, leb_ℤ, length, if◌then◌else◌,
}
use disturbancesmlx.Clock.{Time, Duration, second, millisecond, sub}
use disturbancesmlx.Reports.Cache.{total}
use disturbancesmlx.Vehicles.Eta.{minus, since}
use disturbancesmlx.Vehicles.Passengers.{
  VehicleHandler, seen, LineStations, station_at, choose_line, index_of, time_distance,
}

-- trainAtSeconds, minDistance, trainAtIdx and trainMovingUp, once a train is found.
pub record Sighting : Type 0 where
  pub at_seconds : ℤ
  pub min_distance : ℤ
  pub at_index : ℕ
  pub train_up : Bool

-- int(math.Round(d.Seconds())): to the nearest second, halves away from 0.
abbrev pub rounded_seconds : Duration → ℤ
rounded_seconds (pos n) = pos ((n + 500 * millisecond) / second)
rounded_seconds (negsuc n) = sub_ℕ 0 ((suc n + 500 * millisecond) / second)

pub data EtaError : Type 0 where
  transaction_failed lines_failed invalid_direction no_train condition_failed too_far : EtaError

pub data EtaResult : Type 0 where
  failed : EtaError → EtaResult
  arrives : Duration → EtaResult

-- Counting down from an index to 0, and up from 0.
unfoldable pub down_from : ℕ → List ℕ
down_from zero = zero ∷ []
down_from (suc i) = suc i ∷ down_from i

unfoldable pub up_from : ℕ → ℕ → List ℕ
up_from i zero = []
up_from i (suc n) = i ∷ up_from (suc i) n

-- tDistance < minDistance, which is the largest int while there is no train; tDistance > minDistance
abbrev pub closer : ℤ → Option Sighting → Bool
closer d none = true
closer d (some s) = ltb_ℤ d s.min_distance

abbrev pub farther : ℤ → Option Sighting → Bool
farther d none = false
farther d (some s) = ltb_ℤ s.min_distance d

module _ (duration : ℕ → ℕ → ℕ) (stations : List ℕ) (h : VehicleHandler) (now : Time) (user : ℕ)
    (moving_up : Bool) where
  abbrev pub sighting : ℕ → Bool → Time → Sighting
  sighting i train_up t =
      let seconds = rounded_seconds (sub now t) in
      record {
        at_seconds = seconds;
        min_distance = pos (time_distance duration stations user i moving_up train_up) -ℤ seconds;
        at_index = i;
        train_up = train_up;
      }

  -- One of the loops that look for a train, over the indices that it comes to. It takes a closer
  -- train that is at most half a minute late, and breaks off at a farther one.
  unfoldable pub look : ℕ → Bool → List ℕ → Option Sighting → Option Sighting
  look direction train_up [] best = best
  look direction train_up (i ∷ is) best = elim (seen (station_at i stations) direction h.presence) [
    | none ↦ look direction train_up is best
    | some t ↦
        let s = sighting i train_up t in
        let take = closer s.min_distance best && leb_ℤ (negsuc 29) s.min_distance in
        let rest = look direction train_up is (if take then some s else best) in
        if not take && farther s.min_distance best then best else rest
  ]

  -- The train that is found: one of the user's direction that has not passed yet, or else one of
  -- the other direction.
  unfoldable pub find_train : Option Sighting
  find_train =
      let n = length stations in
      let near = if moving_up then down_from user else up_from user (n - user) in
      let far = if moving_up then up_from 0 n else down_from (n - 1) in
      let direction = station_at (if moving_up then n - 1 else 0) stations in
      let opposite = station_at (if moving_up then 0 else n - 1) stations in
      elim (look direction moving_up near none) [
        | some s ↦ some s
        | none ↦ look opposite (not moving_up) far none
      ]

-- float64(totalSeconds) > d.Seconds()*1.2
abbrev pub over_by_fifth : ℤ → Duration → Bool
over_by_fifth total d = ltb_ℤ (pos 12 *ℤ d) (pos (10 * second) *ℤ total)

-- The correction by the frequency of the trains and by the time since one was here.
unfoldable pub capped_seconds : Duration → Option Duration → ℤ → ℤ
capped_seconds frequency none total = total
capped_seconds frequency (some passed) total =
    let remaining = minus frequency passed in
    if ltb_ℤ (pos 0) remaining && over_by_fifth total remaining
    then pos (pos_part remaining / second)
    else total

abbrev pub time_since : Time → Option Time → Option Duration
time_since now none = none
time_since now (some t) = some (since now t)

-- The last test.
unfoldable pub answer : Duration → ℤ → EtaResult
answer frequency total =
    if ltb_ℤ (pos 0) frequency && over_by_fifth total frequency
    then failed too_far
    else arrives (total *ℤ pos second)

-- h.NextTrainETA(node, station, direction), which reads the clock at `now` and `now'`. The lines of
-- the station are `none` if their query fails, as is the frequency of the line's last condition.
unfoldable pub next_train_eta :
    (duration : ℕ → ℕ → ℕ) (fails : Bool) (lines : Option (List LineStations))
    (frequency : ℕ → Option Duration)
    → Time
    → Time
    → ℕ
    → ℕ
    → VehicleHandler
    → EtaResult
next_train_eta duration fails lines frequency now now' stop direction h =
    if fails then failed transaction_failed else elim lines [
      | none ↦ failed lines_failed
      | some ls ↦ elim (choose_line direction none ls) [
        | none ↦ failed invalid_direction
        | some (l, moving_up) ↦
            let stations = l.first ∷ l.others in
            let user = index_of stop stations in
            elim (find_train duration stations h now user moving_up) [
              | none ↦ failed no_train
              | some s ↦ elim (frequency l.line) [
                | none ↦ failed condition_failed
                | some f ↦ answer f (
                    capped_seconds f (time_since now' (seen stop direction h.presence)) (
                      pos (time_distance duration stations user s.at_index moving_up s.train_up)
                      -ℤ s.at_seconds))
              ]
            ]
      ]
    ]
