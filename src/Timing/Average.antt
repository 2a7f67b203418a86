-- ===== src/Timing/Average.antt =====
-- An average of samples, rounded, is not above their limit.
use disturbancesmlx.Prelude.{
  ℕ, ◌+◌, ◌*◌, ◌<◌, ◌≡◌, subst, inl, inr, true, ◌&&◌, List, arith, ℤ, pos, negsuc, ◌+ℤ◌, ◌≤ℤ◌,
  int_laws, +ℤ_mono, ◌==◌, Bool-cases, ◌/◌, ◌≤◌, sub_ℕ,
}
use disturbancesmlx.Clock.{second}
use disturbancesmlx.Timing.Samples.{limit_seconds, limit, IsClosed, process_trips-closed}
use disturbancesmlx.Timing.Tally.{
  Quantity, same_quantity, Tally, no_samples, add_sample, Graph, process_trips, Key,
}
use disturbancesmlx.Timing.Update.{round_ratio}
use disturbancesmlx.Trips.Model.{Trip}
use native.Mathlib.Nat.{div-lt_iff_lt-mul}

abbrev WithinLimit : ℕ → ℤ × ℕ → Type 0
WithinLimit l p = p.0 ≤ℤ pos (p.1 * l)

-- Every numerator is at most its denominator times the limit.
pub WithinLimits : Tally → Type 0
WithinLimits t = (k : Key) → WithinLimit (limit_seconds k.quantity * second) (t k)

more : (l m : ℕ) (z v : ℤ) → z ≤ℤ pos (m * l) → v ≤ℤ pos l → z +ℤ v ≤ℤ pos ((m + 1) * l)
more l m z v h k =
    let e : (m + 1) * l ≡ m * l + l = mul_suc m l in
    rw e (let sum = +ℤ_mono z (pos (m * l)) v (pos l) h k in omega int_laws)
  where
    mul_suc : (m' l' : ℕ) → (m' + 1) * l' ≡ m' * l' + l'
    mul_suc m' l' = omega arith

same_limit : (a b : Quantity) → same_quantity a b ≡ true → limit_seconds a ≡ limit_seconds b
same_limit a b e = ground arith

add_sample-WithinLimits :
    (key : Key) (v : ℤ)
    → v ≤ℤ limit key.quantity
    → (t : Tally) → WithinLimits t
    → WithinLimits (add_sample key v t)
unfolding add_sample WithinLimits
add_sample-WithinLimits key v h t w k =
    elim (Bool-cases (same_quantity key.quantity k.quantity && key.edge == k.edge)) [
      | inr e ↦ rw e (w k)
      | inl e ↦
          let q = same_limit key.quantity k.quantity (ground arith) in
          rw e (
            more (limit_seconds k.quantity * second) (t k).1 (t k).0 v (w k)
              (subst (λ n. v ≤ℤ pos (n * second)) q h))
    ]

Kept : (Tally → Tally) → Type 0
Kept f = (t : Tally) → WithinLimits t → WithinLimits (f t)

Kept-IsClosed : IsClosed Kept
unfolding Kept
Kept-IsClosed = record {
  identity = λ t w. w;
  compose = λ f g p q t w. p (g t) (q t w);
  sample = add_sample-WithinLimits;
}

pub process_trips-WithinLimits :
    (g : Graph) (trips : List Trip) → WithinLimits (process_trips g trips no_samples)
unfolding Kept WithinLimits
process_trips-WithinLimits g trips =
    process_trips-closed Kept Kept-IsClosed g trips no_samples (λ k. omega arith)

minus_below : (x l : ℕ) → sub_ℕ 0 x ≤ℤ pos l
minus_below x l = ground arith

-- n / d, rounded, for a denominator d that is not 0.
rounded_below : (n d l : ℕ) → 0 < d → n ≤ l * d → (2 * n + d) / (2 * d) ≤ l
rounded_below n d l h le =
    let lt : (2 * n + d) / (2 * d) < l + 1 =
      (div-lt_iff_lt-mul {k = 2 * d} {x = 2 * n + d} {y = l + 1} (omega arith)).1 (omega arith) in
    omega arith

pub WithinLimits-at :
    (t : Tally)
    → WithinLimits t
    → (k : Key) → (t k).0 ≤ℤ pos ((t k).1 * (limit_seconds k.quantity * second))
unfolding WithinLimits
WithinLimits-at t w k = w k

-- A ratio of at most a limit rounds to at most the limit.
pub round_ratio-bound :
    (z : ℤ) (den l : ℕ)
    → 0 < den
    → z ≤ℤ pos (den * (l * second))
    → round_ratio z (den * second) ≤ℤ pos l
unfolding round_ratio
round_ratio-bound (pos n) den l h le =
    let below : n ≤ l * (den * second) = omega (arith, le) in
    let r = rounded_below n (den * second) l (omega arith) below in omega arith
round_ratio-bound (negsuc n) den l h le = minus_below _ l
