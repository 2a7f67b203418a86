-- ===== src/Positions/Percentage.antt =====
-- A train is at the end of its connection only when nothing is left of its ETA, and does not go back.
use disturbancesmlx.Vehicles.Live.{IsInRange, live_eta_lem}
use native.Mathlib.Nat.{le-div_iff_mul-le, div-mul-le_self}
use disturbancesmlx.Prelude.{
  ℕ, zero, suc, ◌+◌, ◌-◌, ◌*◌, ◌/◌, ◌≤◌, ◌≡◌, refl, ap, inl, inr, Bool, [], ◌∷◌, arith, pos, negsuc,
  pos_part, Bool-cases, Option-cases,
}
use disturbancesmlx.Clock.{Time, Duration}
use disturbancesmlx.Positions.Handler.{
  OrderKey, PlatformKey, platform_alias, Platforms, EtaHandler, raw_percentage, correct,
  vehicle_position, connection_duration,
}
use disturbancesmlx.Positions.Store.{Store, MovingAverage}
use disturbancesmlx.Vehicles.Eta.{VehicleEta, live_eta}

div_mono : (a b k : ℕ) → a ≤ b → a / suc k ≤ b / suc k
div_mono a b k h =
    (le-div_iff_mul-le {k = suc k} {x = a / suc k} {y = b} (omega arith)).1
      (omega (arith, div-mul-le_self a (suc k), h))

module _ (orders : Store OrderKey VehicleEta) (places : Store PlatformKey VehicleEta)
    (m : MovingAverage) where
  correct_bound :
      (n p : ℕ) → (correct orders places m n p ≤ 100) × (correct orders places m n p ≡ 100 → n ≡ 0)
  unfolding correct
  correct_bound n p = (ground arith, λ e. ground arith)

  correct_mono :
      (n n' p p' : ℕ)
      → n' ≤ n
      → p ≤ p'
      → correct orders places m n p ≤ correct orders places m n' p'
  unfolding correct
  correct_mono n n' p p' le le' = ground arith

  correct_full :
      (n n' p p' : ℕ)
      → n' ≤ n
      → 100 ≤ p'
      → correct orders places m n p ≤ correct orders places m n' p'
  unfolding correct
  correct_full n n' p p' le le' = ground arith

  corrected :
      (x n n' : ℕ) (d : Duration)
      → n' ≤ n
      → correct orders places m n (raw_percentage orders places m x n d)
        ≤ correct orders places m n' (raw_percentage orders places m x n' d)
  unfolding raw_percentage
  corrected x n n' (pos zero) le = correct_mono n n' _ _ le (ground arith)
  corrected x n n' (pos (suc d)) le =
      let less = div_mono (n' * 100 + d) (n * 100 + d) d (omega arith) in
      correct_mono n n' _ _ le (omega arith)
  corrected x n n' (negsuc d) le = correct_full n n' _ _ le (omega arith)

  -- VehiclePosition gives at most 100 percent, and 100 only if the live ETA is 0. For a prediction that is
  -- not from the future, with no overflow of int64, a train does not go back: at a later time, if nothing
  -- else has changed, the station is the same and the percentage is not lower.
  pub vehicle_position_lem :
      (ready : Bool) (x : ℕ) (p : Platforms) (now now' : Time) (e : VehicleEta)
      (h : EtaHandler orders places m)
      → now ≤ now'
      → IsInRange now e.computed e.eta
      → IsInRange now e.computed e.valid_for
      → IsInRange now' e.computed e.eta
      → IsInRange now' e.computed e.valid_for
      → let r = vehicle_position orders places m ready x p now e h in
        let r' = vehicle_position orders places m ready x p now' e h in
        ((r.1 ≤ 100) × (r.1 ≡ 100 → live_eta now e ≡ pos 0)) × ((r'.0 ≡ r.0) × (r.1 ≤ r'.1))
  unfolding vehicle_position
  vehicle_position_lem ready x p now now' e h le a b c d =
      let v = (live_eta_lem now e a b).0 in
      let v' = (live_eta_lem now' e c d).0 in
      let left = pos_part e.eta - (now - e.computed) in
      let left' = pos_part e.eta - (now' - e.computed) in
      let idle = correct_bound left 0 in
      let still = correct_mono left left' 0 0 (omega arith) (omega arith) in
      elim (Bool-cases ready) [
        | inr q ↦ rw q ((omega arith, λ z. absurd (omega (arith, z))), (refl, omega arith))
        | inl q ↦ elim (Option-cases (p.connections_to (platform_alias e.platform))) [
          | inl n ↦ rw (q, n, v, v') ((idle.0, λ z. ap pos (idle.1 z)), (refl, still))
          | inr ([], n) ↦ rw (q, n, v, v') ((idle.0, λ z. ap pos (idle.1 z)), (refl, still))
          | inr (k ∷ ks, n) ↦
              let dur = connection_duration orders places m k h in
              let bound = correct_bound left (raw_percentage orders places m x left dur) in
              rw (q, n, v, v')
                (
                  (bound.0, λ z. ap pos (bound.1 z)),
                  (refl, corrected x left left' dur (omega arith)),
                )
        ]
      ]
