-- ===== src/Accounts/Activation.antt =====
-- What CalculateActivationTime grants, against the sum of the penalties.
use disturbancesmlx.Prelude.{
  ℕ, ◌+◌, ◌≡◌, Bool, false, ◌||◌, none, some, List, [], ◌∷◌, arith, select, if◌then◌else◌, ◌*◌, ◌≤◌,
  ◌⊎◌, inl, inr, true, Option, Has, Bool-cases, ◌<◌, refl, pos, ltb_ℤ,
}
use disturbancesmlx.Accounts.Pairing.{
  AndroidPairRequest, related, penalty, replays, accumulate, device_penalty, address_penalty,
  calculate_activation_time,
}
use disturbancesmlx.Clock.{Time, Duration, zero_time, hour, sub}

-- The table has a request that makes this one a replay.
abbrev pub replayed : Duration → AndroidPairRequest → List AndroidPairRequest → Bool
replayed skew r [] = false
replayed skew r (p ∷ ps) = replays skew r p || replayed skew r ps

abbrev pub penalties : AndroidPairRequest → List AndroidPairRequest → ℕ
penalties r [] = 0
penalties r (p ∷ ps) = penalty r p + penalties r ps

accumulate_lem :
    (skew : Duration) (r : AndroidPairRequest) (ps : List AndroidPairRequest) (t : Time)
    → accumulate skew r (select (related r) ps) t
      ≡ (if replayed skew r ps then none else some (t + penalties r ps))
unfolding accumulate select
accumulate_lem skew r [] t = ground arith
accumulate_lem skew r (p ∷ ps) t =
    ground (arith, accumulate_lem skew r ps t, accumulate_lem skew r ps (t + penalty r p))

penalty_most : (r p : AndroidPairRequest) → penalty r p ≤ 3 * hour
unfolding device_penalty address_penalty
penalty_most r p = ground arith

penalty_least :
    (r p : AndroidPairRequest) (ps : List AndroidPairRequest)
    → Has p ps
    → penalty r p ≤ penalties r ps
penalty_least r p [] m = absurd m
penalty_least r p (q ∷ ps) (inl e) = rw (← e) (omega arith)
penalty_least r p (q ∷ ps) (inr m) = omega (arith, penalty_least r p ps m)

-- What is granted: nothing on a replay; else a time that waits out every penalty, or the most that
-- anyone waits.
abbrev pub Granted :
    Time
    → Time
    → Time
    → Duration
    → AndroidPairRequest
    → List AndroidPairRequest
    → Option Time
    → Type 0
Granted t0 t1 t2 skew r table none = ⊥
Granted t0 t1 t2 skew r table (some a) =
    ((replayed skew r table ≡ true) × (a ≡ zero_time))
    ⊎ ((replayed skew r table ≡ false)
        × (t0 ≤ a)
        × (a ≤ t2 + 24 * hour)
        × ((p : AndroidPairRequest) → Has p table → t0 + penalty r p ≤ a)
        × ((t0 + penalties r table ≤ t1 + 24 * hour) → a ≡ t0 + penalties r table))

over_a_day :
    (a t : Time)
    → ((ltb_ℤ (pos (24 * hour)) (sub a t) ≡ true) × (t + 24 * hour < a))
      ⊎ ((ltb_ℤ (pos (24 * hour)) (sub a t) ≡ false) × (a ≤ t + 24 * hour))
unfolding sub
over_a_day a t = ground arith

-- With a clock that does not run backwards and a query that succeeds, a nonce that was used within
-- the skew gets the zero time; any other request gets a time between now and a day from now, which
-- no single past request of its device or address leaves any earlier than its penalty, and which is
-- the sum of all the penalties if that is within a day.
pub calculate_activation_time_lem :
    (t0 t1 t2 : Time) (skew : Duration) (r : AndroidPairRequest) (table : List AndroidPairRequest)
    → t0 ≤ t1
    → t1 ≤ t2
    → Granted t0 t1 t2 skew r table (calculate_activation_time false t0 t1 t2 skew r table)
unfolding calculate_activation_time
calculate_activation_time_lem t0 t1 t2 skew r table h k =
    elim (Bool-cases (replayed skew r table)) [
      | inl old ↦
          rw (accumulate_lem skew r table t0, old, calculate_activation_time) (inl (old, refl))
      | inr new ↦ elim (over_a_day (t0 + penalties r table) t1) [
        | inl (q, far) ↦
            rw (accumulate_lem skew r table t0, new, calculate_activation_time, q)
              (inr (
                new,
                omega arith,
                omega arith,
                λ p m. omega (arith, penalty_most r p),
                λ near. absurd (omega arith),
              ))
        | inr (q, near) ↦
            rw (accumulate_lem skew r table t0, new, calculate_activation_time, q)
              (inr (
                new,
                omega arith,
                omega arith,
                λ p m. omega (arith, penalty_least r p table m),
                λ _. refl,
              ))
      ]
    ]
