-- ===== src/Vehicles/Wire.antt =====
-- mqttgateway/vehicleeta.go: what is published of a prediction. Seconds() and Minutes() are floats
-- in the code; here they are exact, which the floats are for durations below 97 days.
use disturbancesmlx.Prelude.{
  ℕ, ◌+◌, ◌-◌, ◌*◌, ◌/◌, ◌%◌, ◌^◌, Bool, Option, none, some, ℤ, pos, negsuc, pos_part, sub_ℕ, ltb_ℤ,
  if◌then◌else◌,
}
use disturbancesmlx.Clock.{Time, Duration, second, minute}
use disturbancesmlx.Disturbances.Messages.{lower}
use disturbancesmlx.Vehicles.Eta.{
  VehicleEtaType, absolute, relative_exact, relative_range, relative_minimum, relative_maximum,
  VehicleEta, remaining_validity, live_eta, since,
}

pub data WireType : Type 0 where
  not_available exact interval less_than more_than timestamp : WireType

pub data WireUnit : Type 0 where
  seconds minutes : WireUnit

-- vehicleETA, the part that all messages share.
pub record WireBase : Type 0 where
  pub direction : ℕ
  pub made : ℤ
  pub valid_for : ℕ
  pub wire_type : WireType
  pub units : WireUnit
  pub order : ℕ
  pub cars : ℕ

-- vehicleETA, vehicleETASingleValue and vehicleETAInterval
pub data WireEta : Type 0 where
  bare : WireBase → WireEta
  single : WireBase → ℕ → WireEta
  range : WireBase → ℕ → ℕ → WireEta

-- uint(i) of an int64
abbrev pub uint_of : ℤ → ℕ
uint_of (pos n) = n % 2 ^ 64
uint_of (negsuc n) = 2 ^ 64 - 1 - n % 2 ^ 64

-- t.Unix(): seconds since 1970.
abbrev pub unix : Time → ℤ
unix t = sub_ℕ (t / second) 62_135_596_800

-- uint(d.Seconds()) of a duration that is not negative: rounded down.
abbrev pub whole_seconds : Duration → ℕ
whole_seconds d = pos_part d / second

-- uint(math.Round(d.Minutes())) of a duration that is not negative: rounded to the nearest.
abbrev pub rounded_minutes : Duration → ℕ
rounded_minutes d = (pos_part d + 30 * second) / minute

abbrev pub base : WireType → WireUnit → ℕ → Time → Duration → ℕ → ℕ → WireBase
base wire_type units direction made valid_for order cars = record {
  direction = direction;
  made = unix made;
  valid_for = whole_seconds valid_for;
  wire_type = wire_type;
  units = units;
  order = order;
  cars = cars;
}

abbrev pub units_of : Bool → WireUnit
units_of precise = if precise then seconds else minutes

abbrev pub value_of : Bool → Duration → ℕ
value_of precise d = if precise then whole_seconds d else rounded_minutes d

unfoldable pub build_not_available : ℕ → Time → Duration → ℕ → ℕ → WireEta
build_not_available direction made valid_for order cars =
    bare (base not_available seconds direction made valid_for order cars)

unfoldable pub build_timestamp : ℕ → Time → Duration → Time → ℕ → ℕ → WireEta
build_timestamp direction made valid_for eta order cars =
    single (base timestamp seconds direction made valid_for order cars) (uint_of (unix eta))

unfoldable pub build_exact : ℕ → Time → Duration → Duration → Bool → ℕ → ℕ → WireEta
build_exact direction made valid_for eta precise order cars =
    single (base exact (units_of precise) direction made valid_for order cars)
      (value_of precise eta)

unfoldable pub build_less_than : ℕ → Time → Duration → Duration → Bool → ℕ → ℕ → WireEta
build_less_than direction made valid_for eta precise order cars =
    single (base less_than (units_of precise) direction made valid_for order cars)
      (value_of precise eta)

unfoldable pub build_more_than : ℕ → Time → Duration → Duration → Bool → ℕ → ℕ → WireEta
build_more_than direction made valid_for eta precise order cars =
    single (base more_than (units_of precise) direction made valid_for order cars)
      (value_of precise eta)

unfoldable pub build_interval : ℕ → Time → Duration → Duration → Duration → Bool → ℕ → ℕ → WireEta
build_interval direction made valid_for lower upper precise order cars =
    range (base interval (units_of precise) direction made valid_for order cars)
      (value_of precise lower) (value_of precise upper)

-- The message of a prediction whose type has one.
unfoldable pub struct_of_type : Time → VehicleEta → VehicleEtaType → Option WireEta
struct_of_type now e absolute = some (
    build_timestamp e.direction e.computed (remaining_validity now e) e.absolute_eta e.arrival_order
      e.transport_units)
struct_of_type now e relative_exact = some (
    build_exact e.direction e.computed (remaining_validity now e) (live_eta now e)
      (ltb_ℤ e.precision (pos (30 * second))) e.arrival_order e.transport_units)
struct_of_type now e relative_minimum = some (
    build_more_than e.direction e.computed (remaining_validity now e) (live_eta now e)
      (ltb_ℤ e.precision (pos (30 * second))) e.arrival_order e.transport_units)
struct_of_type now e relative_maximum = some (
    build_less_than e.direction e.computed (remaining_validity now e) (live_eta now e)
      (ltb_ℤ e.precision (pos (30 * second))) e.arrival_order e.transport_units)
struct_of_type now e relative_range = none

-- g.vehicleETAtoStruct(eta); `none` is nil.
unfoldable pub vehicle_eta_to_struct : Time → VehicleEta → Option WireEta
vehicle_eta_to_struct now e =
    if ltb_ℤ (pos (2 * minute)) (since now e.computed)
    then some
        (build_not_available e.direction now (pos (2 * minute)) e.arrival_order e.transport_units)
    else struct_of_type now e e.eta_type
