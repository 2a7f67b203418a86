-- ===== src/Positions/Handler.antt =====
-- compute/vehicleeta.go: VehicleETAHandler.
use disturbancesmlx.Prelude.{
  ℕ, zero, suc, ◌+◌, ◌-◌, ◌*◌, ◌/◌, String, Bool, not, ◌&&◌, Option, none, some, List, [], ◌∷◌,
  str_eq, pos, negsuc, pos_part, ◌+ℤ◌, ◌*ℤ◌, ltb, ◌==◌, if◌then◌else◌, false,
}
use disturbancesmlx.Clock.{Time, Duration, second, wrap_int64}
use disturbancesmlx.Positions.Store.{Store, MovingAverage}
use disturbancesmlx.Timing.Update.{Connection}
use disturbancesmlx.Vehicles.Eta.{VehicleEta, live_eta}

-- "station#direction#order", "station#direction#platform" and "from#to"
abbrev pub OrderKey : Type 0
OrderKey = ℕ × ℕ × ℕ

abbrev pub PlatformKey : Type 0
PlatformKey = ℕ × ℕ × String

abbrev pub same_order : OrderKey → OrderKey → Bool
same_order (s, d, i) (s', d', i') = s == s' && d == d' && i == i'

-- platformAliasesForPositions
abbrev pub platform_alias : String → String
platform_alias p =
    if str_eq p "AP5APO"
    then "AP8APO"
    else if str_eq p "CS6O"
    then "CS13O"
    else if str_eq p "CS27O"
    then "CS13O"
    else if str_eq p "TE5O"
    then "TE12O"
    else if str_eq p "S27O"
    then "S26O"
    else if str_eq p "SPC2SP"
    then "SPC9SP"
    else p

-- The duration is 0.
abbrev pub is_none_left : Duration → Bool
is_none_left (pos n) = n == 0
is_none_left (negsuc n) = false

-- GetConnectionsFromPlatform and GetConnectionsToPlatform; `none` is an error.
pub record Platforms : Type 0 where
  pub connections_from : String → Option (List Connection)
  pub connections_to : String → Option (List Connection)

module _ (orders : Store OrderKey VehicleEta) (places : Store PlatformKey VehicleEta)
    (m : MovingAverage) where
  pub record EtaHandler : Type 0 where
    pub etas : orders.Carrier
    pub etas_pos : places.Carrier
    pub conn_durations : List ((ℕ × ℕ) × m.Window)

  -- h.connDurations[key]
  abbrev pub window_of : ℕ × ℕ → List ((ℕ × ℕ) × m.Window) → Option m.Window
  window_of k [] = none
  window_of k ((j, v) ∷ rest) = if j.0 == k.0 && j.1 == k.1 then some v else window_of k rest

  abbrev pub with_eta : Option VehicleEta → List VehicleEta → List VehicleEta
  with_eta none rest = rest
  with_eta (some e) rest = e ∷ rest

  -- The loop of VehicleETAs, over `n` orders from `i` on.
  unfoldable pub collect : (ℕ → Option VehicleEta) → ℕ → ℕ → List VehicleEta
  collect f i zero = []
  collect f i (suc n) = let rest = collect f (suc i) n in with_eta (f i) rest

  -- h.VehicleETAs(station, direction, numVehicles)
  unfoldable pub vehicle_etas : Time → ℕ → ℕ → ℕ → EtaHandler → List VehicleEta
  vehicle_etas now stop direction n h =
      collect (λ i. orders.get now (stop, direction, i) h.etas) 1 n

  -- h.registerTime(eta), where `ready` says that the transaction began.
  unfoldable pub register_time : Bool → Platforms → Time → VehicleEta → EtaHandler → EtaHandler
  register_time ready p now e h = if not ready then h else elim (p.connections_from e.platform) [
    | none ↦ h
    | some [] ↦ h
    | some (c ∷ cs) ↦ elim (vehicle_etas now c.to_station e.direction 1 h) [
      | [] ↦ h
      | next ∷ others ↦
          let key : ℕ × ℕ = (c.from_station, c.to_station) in
          let old : m.Window = elim (window_of key h.conn_durations) [
            | none ↦ m.empty_window
            | some v ↦ v
          ] in
          record h {
            conn_durations = (key, m.add_value (live_eta now next) old) ∷ h.conn_durations;
          }
    ]
  ]

  -- h.RegisterVehicleETA(eta)
  unfoldable pub register_vehicle_eta :
      Bool → Platforms → Time → VehicleEta → EtaHandler → EtaHandler
  register_vehicle_eta ready p now e h =
      let h1 = record h {
        etas = orders.put now (e.station, e.direction, e.arrival_order) e e.valid_for h.etas;
      } in
      if e.arrival_order == 1
      then (let h2 : EtaHandler = record h1 {
        etas_pos = places.put now (e.station, e.direction, e.platform) e e.valid_for h.etas_pos;
      } in
          if is_none_left (live_eta now e) then register_time ready p now e h2 else h2)
      else h1

  -- h.ConnectionDuration(connection)
  unfoldable pub connection_duration : Connection → EtaHandler → Duration
  connection_duration c h =
      let typical = wrap_int64 (pos second *ℤ (c.typical_seconds +ℤ c.typical_stop_seconds)) in
      elim (window_of (c.from_station, c.to_station) h.conn_durations) [
        | none ↦ typical
        | some v ↦
            if m.count_values v == 0
            then typical
            else elim (m.min_value v) [ none ↦ typical | some d ↦ d ]
      ]

  -- 100 - (eta.LiveETA().Seconds()*100)/connDur.Seconds(), at least 0 and as a uint, for a live ETA of `n`
  -- nanoseconds; `not_a_number` is what 0/0 is converted to.
  unfoldable pub raw_percentage : ℕ → ℕ → Duration → ℕ
  raw_percentage not_a_number n (pos zero) = if n == 0 then not_a_number else 0
  raw_percentage not_a_number n (pos (suc d)) = 100 - (n * 100 + d) / suc d
  raw_percentage not_a_number n (negsuc d) = 100 + (n * 100) / suc d

  -- The deferred corrections.
  unfoldable pub correct : ℕ → ℕ → ℕ
  correct n p =
      let capped = if ltb 100 p then 100 else p in if capped == 100 && ltb 0 n then 99 else capped

  -- h.VehiclePosition(tx, eta), which reads the live ETA at one time. The corrections are deferred only
  -- once the transaction has begun; `none` is a nil station.
  unfoldable pub vehicle_position :
      Bool → ℕ → Platforms → Time → VehicleEta → EtaHandler → Option ℕ × ℕ
  vehicle_position ready not_a_number p now e h =
      let n = pos_part (live_eta now e) in
      if not ready then (none, 0) else elim (p.connections_to (platform_alias e.platform)) [
        | none ↦ (some e.station, correct n 0)
        | some [] ↦ (some e.station, correct n 0)
        | some (c ∷ cs) ↦ (
          some c.from_station,
          correct n (raw_percentage not_a_number n (connection_duration c h)),
        )
      ]
