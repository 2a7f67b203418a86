-- ===== src/Vehicles/Accuracy.antt =====
-- How near a published prediction comes to the prediction, and which ones are published at all.
use disturbancesmlx.Prelude.{
  ℕ, ◌+◌, ◌*◌, ◌≤◌, ◌<◌, ◌≡◌, refl, Bool, true, false, some, arith, pos_part, ◌⊎◌, inl, inr, Option,
  none, pos, ◌≤ℤ◌, ltb_ℤ, Bool-cases,
}
use disturbancesmlx.Clock.{Time, Duration, second, minute}
use disturbancesmlx.Vehicles.Eta.{
  VehicleEtaType, absolute, relative_exact, relative_range, relative_minimum, relative_maximum,
  VehicleEta, live_eta, since,
}
use disturbancesmlx.Vehicles.Wire.{
  WireUnit, seconds, minutes, WireBase, single, units_of, value_of, build_exact, build_less_than,
  build_more_than, struct_of_type, exact, less_than, more_than, timestamp, WireEta, bare, range,
  uint_of, unix, build_not_available, build_timestamp, vehicle_eta_to_struct,
}

-- The value is the duration, rounded down to seconds or to the nearest minute.
abbrev pub Accurate : Duration → WireUnit → ℕ → Type 0
Accurate d seconds v = (v * second ≤ pos_part d) × (pos_part d < (v + 1) * second)
Accurate d minutes v =
    (v * minute ≤ pos_part d + 30 * second) × (pos_part d + 30 * second < (v + 1) * minute)

-- What a message with one value says of the prediction, by the prediction's type.
abbrev pub Tells : Time → VehicleEta → VehicleEtaType → WireBase → ℕ → Type 0
Tells now e absolute b v = (b.wire_type ≡ timestamp) × (v ≡ uint_of (unix e.absolute_eta))
Tells now e relative_exact b v = (b.wire_type ≡ exact) × Accurate (live_eta now e) b.units v
Tells now e relative_minimum b v = (b.wire_type ≡ more_than) × Accurate (live_eta now e) b.units v
Tells now e relative_maximum b v = (b.wire_type ≡ less_than) × Accurate (live_eta now e) b.units v
Tells now e relative_range b v = ⊥

-- What is published of a prediction of the type: nothing for a range, else one true value.
abbrev pub Describes : Time → VehicleEta → VehicleEtaType → Option WireEta → Type 0
Describes now e t none = t ≡ relative_range
Describes now e t (some (bare b)) = ⊥
Describes now e t (some (single b v)) = Tells now e t b v
Describes now e t (some (range b v w)) = ⊥

value_of-Accurate :
    (precise : Bool) (d : Duration) → Accurate d (units_of precise) (value_of precise d)
value_of-Accurate true d = omega arith
value_of-Accurate false d = omega arith

struct_of_type-Describes :
    (now : Time) (e : VehicleEta) (t : VehicleEtaType) → Describes now e t (struct_of_type now e t)
unfolding struct_of_type build_exact build_less_than build_more_than build_timestamp
struct_of_type-Describes now e absolute = (refl, refl)
struct_of_type-Describes now e relative_exact =
    (refl, value_of-Accurate (ltb_ℤ e.precision (pos (30 * second))) (live_eta now e))
struct_of_type-Describes now e relative_minimum =
    (refl, value_of-Accurate (ltb_ℤ e.precision (pos (30 * second))) (live_eta now e))
struct_of_type-Describes now e relative_maximum =
    (refl, value_of-Accurate (ltb_ℤ e.precision (pos (30 * second))) (live_eta now e))
struct_of_type-Describes now e relative_range = refl

-- A prediction made more than two minutes ago is published as not available; any other is
-- published as the time it names, or as its remaining duration rounded down to seconds or to the
-- nearest minute, with the type of message that its own type asks for; only a range has none.
pub vehicle_eta_to_struct_lem :
    (now : Time) (e : VehicleEta)
    → (pos (2 * minute) ≤ℤ since now e.computed
        × vehicle_eta_to_struct now e
          ≡ some (
              build_not_available e.direction now
                (pos (2 * minute))
                e.arrival_order
                e.transport_units))
      ⊎ (since now e.computed ≤ℤ pos (2 * minute)
          × Describes now e e.eta_type (vehicle_eta_to_struct now e))
unfolding vehicle_eta_to_struct
vehicle_eta_to_struct_lem now e =
    elim (Bool-cases (ltb_ℤ (pos (2 * minute)) (since now e.computed))) [
      | inl stale ↦ inl (ground arith, rw (stale) refl)
      | inr live ↦ inr (ground arith, rw (live) (struct_of_type-Describes now e e.eta_type))
    ]
