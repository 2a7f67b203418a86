-- ===== src/Vehicles/Live.antt =====
-- What LiveETA and RemainingValidity say as time passes.
use disturbancesmlx.Prelude.{◌+◌, ◌-◌, ◌≤◌, ◌≡◌, arith, pos, pos_part, neg_part, ◌-ℤ◌}
use disturbancesmlx.Clock.{Time, Duration, max_int64, sub}
use disturbancesmlx.Vehicles.Eta.{
  duration_max, minus, since, VehicleEta, remaining_validity, live_eta,
}

-- Within the range of int64, what is left of a duration is the duration less the time elapsed.
left_of :
    (now : Time) (computed : Time) (d : Duration)
    → computed ≤ now
    → now - computed ≤ max_int64
    → pos_part d ≤ max_int64
    → neg_part d ≤ max_int64
    → neg_part d + (now - computed) ≤ max_int64
    → duration_max (pos 0) (minus d (since now computed)) ≡ pos (pos_part d - (now - computed))
unfolding duration_max minus since sub ◌-ℤ◌
left_of now computed d h fits most least span = ground arith

-- A duration that an int64 holds with the time elapsed since `computed` taken away.
pub record IsInRange (now computed : Time) (d : Duration) : Type 0 where
  pub past : computed ≤ now
  pub elapsed : now - computed ≤ max_int64
  pub most : pos_part d ≤ max_int64
  pub least : neg_part d + (now - computed) ≤ max_int64

left_of_range :
    (now computed : Time) (d : Duration)
    → IsInRange now computed d
    → duration_max (pos 0) (minus d (since now computed)) ≡ pos (pos_part d - (now - computed))
left_of_range now computed d r =
    left_of now computed d r.past r.elapsed r.most (omega arith) r.least

-- For a prediction that is not from the future, with no overflow of int64, LiveETA and
-- RemainingValidity count down from their values to 0, one nanosecond for each that passes, and
-- stay at 0.
pub live_eta_lem :
    (now : Time) (e : VehicleEta)
    → IsInRange now e.computed e.eta
    → IsInRange now e.computed e.valid_for
    → (live_eta now e ≡ pos (pos_part e.eta - (now - e.computed)))
      × (remaining_validity now e ≡ pos (pos_part e.valid_for - (now - e.computed)))
unfolding live_eta remaining_validity
live_eta_lem now e r v =
    (left_of_range now e.computed e.eta r, left_of_range now e.computed e.valid_for v)
