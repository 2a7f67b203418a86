-- ===== src/Examples/Positions.antt =====
-- A prediction that is registered, found and placed on its connection.
use disturbancesmlx.Prelude.{
  ℕ, ◌+◌, ◌*◌, ◌≤◌, ◌<◌, ◌≡◌, refl, Bool, true, ◌&&◌, Option, none, some, List, [], ◌∷◌, arith,
  str_eq, pos, negsuc, ◌+ℤ◌, ◌-ℤ◌, ◌*ℤ◌, ltb_ℤ, length, take, ltb, ◌==◌, if◌then◌else◌,
}
use disturbancesmlx.Clock.{Time, Duration, second, sub}
use disturbancesmlx.Positions.Handler.{
  OrderKey, PlatformKey, same_order, Platforms, EtaHandler, collect, vehicle_etas,
  register_vehicle_eta, raw_percentage, correct, vehicle_position, connection_duration,
}
use disturbancesmlx.Positions.Lookup.{vehicle_etas-register_vehicle_eta}
use disturbancesmlx.Positions.Percentage.{vehicle_position_lem}
use disturbancesmlx.Positions.Store.{Store, IsStore, MovingAverage}
use disturbancesmlx.Timing.Update.{Connection}
use disturbancesmlx.Vehicles.Eta.{since, relative_exact, VehicleEta, duration_max, minus, live_eta}
use disturbancesmlx.Vehicles.Live.{IsInRange}

abbrev Item : Type 0 → Type 0
Item K = K × VehicleEta × Time × Duration

abbrev is_alive : Time → Time → Duration → Bool
is_alive now t (pos n) = ltb now (t + n)
is_alive now t (negsuc n) = true

abbrev get_item : {K : Type 0} → (K → K → Bool) → Time → K → List (Item K) → Option VehicleEta
get_item eq now j [] = none
get_item eq now j ((k, v, t, d) ∷ rest) =
    if eq j k then (if is_alive now t d then some v else none) else get_item eq now j rest

abbrev list_store : {K : Type 0} → (K → K → Bool) → Store K VehicleEta
list_store {K} eq = record {
  Carrier = List (Item K);
  get = get_item eq;
  put = λ t k v d s. (k, v, t, d) ∷ s;
}

abbrev by_order : Store OrderKey VehicleEta
by_order = list_store same_order

abbrev by_place : Store PlatformKey VehicleEta
by_place = list_store (λ a b. a.0 == b.0 && a.1 == b.1)

by_order-IsStore : IsStore same_order by_order
by_order-IsStore = record {
  get-put_same = λ t now j k v ttl s q le lt. rw q (alive now t ttl v lt);
  get-put_other = λ t now j k v ttl s q. rw q refl;
}
  where
    alive :
        (now t ttl : ℕ) (v : VehicleEta)
        → now < t + ttl
        → (if ltb now (t + ttl) then some v else none) ≡ some v
    alive now t ttl v lt = ground arith

abbrev shortest : List Duration → Option Duration
shortest [] = none
shortest (d ∷ ds) = elim (shortest ds) [
  | none ↦ some d
  | some e ↦ some (if ltb_ℤ e d then e else d)
]

abbrev windows : MovingAverage
windows = record {
  Window = List Duration;
  empty_window = [];
  add_value = λ d w. take 10 (d ∷ w);
  count_values = λ w. length w;
  min_value = shortest;
}

abbrev nothing_held : EtaHandler by_order by_place windows
nothing_held = record { etas = []; etas_pos = []; conn_durations = [] }

abbrev arriving : VehicleEta
arriving = record {
  station = 2;
  direction = 9;
  arrival_order = 1;
  transport_units = 6;
  vehicle_service_id = [];
  platform = "TE5O";
  computed = 100 * second;
  valid_for = pos (60 * second);
  eta_type = relative_exact;
  absolute_eta = 0;
  eta = pos (30 * second);
  eta_lower_bound = pos 0;
  eta_upper_bound = pos 0;
  precision = pos second;
}

abbrev link : Connection
link = record {
  connection_id = 5;
  from_station = 1;
  to_station = 2;
  typical_seconds = pos 100;
  typical_stop_seconds = pos 20;
  typical_waiting_seconds = pos 60;
}

abbrev one_link : Platforms
one_link = record {
  connections_from = λ p. some [];
  connections_to = λ p. some (if str_eq p "TE12O" then link ∷ [] else []);
}

vehicle_etas-register_vehicle_eta_example :
    vehicle_etas by_order by_place windows (110 * second) 2 9 2 (
      register_vehicle_eta by_order by_place windows true one_link
        (100 * second)
        arriving
        nothing_held)
    ≡ collect by_order by_place windows
        (λ i.
          if same_order (2, 9, i) (2, 9, 1)
          then some arriving
          else by_order.get (110 * second) (2, 9, i) [])
        1
        2
vehicle_etas-register_vehicle_eta_example =
    vehicle_etas-register_vehicle_eta by_order by_place windows by_order-IsStore true one_link
      (100 * second) (110 * second) arriving nothing_held 2 9 2 (60 * second) refl (omega arith)
      (omega arith)

in_range :
    (now : ℕ)
    → 100 * second ≤ now
    → now ≤ 200 * second
    → (n : ℕ) → n ≤ 60 * second
    → IsInRange now (100 * second) (pos n)
in_range now le ge n small = record {
  past = le;
  elapsed = omega arith;
  most = omega arith;
  least = omega arith;
}

vehicle_position_lem_example :
    let r =
      vehicle_position by_order by_place windows true 0 one_link
        (100 * second)
        arriving
        nothing_held in
    let r' =
      vehicle_position by_order by_place windows true 0 one_link
        (110 * second)
        arriving
        nothing_held in
    ((r.1 ≤ 100) × (r.1 ≡ 100 → live_eta (100 * second) arriving ≡ pos 0))
    × ((r'.0 ≡ r.0) × (r.1 ≤ r'.1))
vehicle_position_lem_example =
    vehicle_position_lem by_order by_place windows true 0 one_link (100 * second) (110 * second)
      arriving nothing_held (omega arith)
      (in_range (100 * second) (omega arith) (omega arith) (30 * second) (omega arith))
      (in_range (100 * second) (omega arith) (omega arith) (60 * second) (omega arith))
      (in_range (110 * second) (omega arith) (omega arith) (30 * second) (omega arith))
      (in_range (110 * second) (omega arith) (omega arith) (60 * second) (omega arith))

placed :
    vehicle_position by_order by_place windows true 0 one_link (100 * second) arriving nothing_held
    ≡ (some 1, 75)
unfolding vehicle_position connection_duration raw_percentage correct live_eta minus since
    duration_max sub ◌+ℤ◌ ◌-ℤ◌ ◌*ℤ◌
placed = refl
