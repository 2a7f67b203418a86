-- ===== src/Timing/Samples.antt =====
-- What holds of every sample holds of all trips: a principle of induction over the loops.
use disturbancesmlx.Prelude.{
  ℕ, ◌*◌, ◌≡◌, inl, inr, true, ℤ, pos, ◌≤ℤ◌, ltb_ℤ, Bool-cases, ◌+◌, ◌<◌, refl, Bool, false, ◌&&◌,
  List, [], ◌∷◌, arith, pos_part, neg_part, ◌+ℤ◌, ◌-ℤ◌, int_laws, if◌then◌else◌, Option-cases,
}
use disturbancesmlx.Clock.{second, sub}
use disturbancesmlx.Timing.Tally.{
  Quantity, crossing, stopping, waiting, changing, Tally, add_sample, less_20, process_transfer,
  process_crossing, Key, Graph, is_entry, is_through, process_wait, forced, process_pair,
  process_change, process_uses, process_trips,
}
use disturbancesmlx.Trips.Model.{StationUse, is_interchange, Trip}

-- The longest that a sample of each quantity can be.
abbrev pub limit_seconds : Quantity → ℕ
limit_seconds crossing = 620
limit_seconds stopping = 160
limit_seconds waiting = 160
limit_seconds changing = 880

abbrev pub limit : Quantity → ℤ
limit q = pos (limit_seconds q * second)

-- A property of changes of the tally that holds of each sample and is kept by sequence.
pub record IsClosed (P : (Tally → Tally) → Type 0) : Type 0 where
  pub identity : P (λ t. t)
  pub compose : (f g : Tally → Tally) → P f → P g → P (λ t. f (g t))
  pub sample : (key : Key) (v : ℤ) → v ≤ℤ limit key.quantity → P (add_sample key v)

lower_by : (d : ℤ) (m n : ℕ) → ltb_ℤ d (pos (m + n)) ≡ true → d -ℤ pos n ≤ℤ pos m
lower_by d m n e = let lt : pos_part d + 0 < m + n + neg_part d = ground arith in omega int_laws

raise_by : (d : ℤ) (m n : ℕ) → ltb_ℤ d (pos m) ≡ true → d +ℤ pos n ≤ℤ pos (m + n)
raise_by d m n e = let lt : pos_part d + 0 < m + neg_part d = ground arith in omega int_laws

module _ (P : (Tally → Tally) → Type 0) (closed : IsClosed P) where
  sample_if :
      (b : Bool) (key : Key) (v : ℤ)
      → (b ≡ true → v ≤ℤ limit key.quantity)
      → (f : Tally → Tally) → P f
      → P (λ t. if b then add_sample key v t else f t)
  sample_if true key v h f p = closed.sample key v (h refl)
  sample_if false key v h f p = p

  process_transfer-closed : (transfer : ℕ) (u : StationUse) → P (λ t. process_transfer transfer u t)
  unfolding process_transfer
  process_transfer-closed transfer u =
      sample_if _ _ _ (lower_by (sub u.leave_time u.entry_time) (880 * second) (20 * second))
        (λ t. t) closed.identity

  process_crossing-closed : (c : ℕ) (a b : StationUse) → P (λ t. process_crossing c a b t)
  unfolding process_crossing
  process_crossing-closed c a b =
      sample_if _ _ _ (raise_by (sub b.entry_time a.leave_time) (600 * second) (20 * second))
        (λ t. t) closed.identity

  process_wait-closed : (c : ℕ) (a : StationUse) → P (λ t. process_wait c a t)
  unfolding process_wait
  process_wait-closed c a =
      sample_if _ _ _ (short (is_entry a.use_type)) _
        (sample_if _ _ _ (short (is_through a.use_type)) (λ t. t) closed.identity)
    where
      short :
          (b : Bool)
          → (b && ltb_ℤ (sub a.leave_time a.entry_time) (pos (60 * 3 * second))) ≡ true
          → less_20 (sub a.leave_time a.entry_time) ≤ℤ pos (160 * second)
      short b e =
          lower_by (sub a.leave_time a.entry_time) (160 * second) (20 * second) (second_of b _ e)
        where
          second_of : (x y : Bool) → (x && y) ≡ true → y ≡ true
          second_of true y e' = e'
          second_of false y e' = cc

  module _ (g : Graph) where
    process_pair-closed :
        (a b : StationUse) (rest : List StationUse) → P (λ t. process_pair g a b rest t)
    unfolding process_pair
    process_pair-closed a b rest = elim (Bool-cases b.manual) [
      | inl e ↦ rw e closed.identity
      | inr e ↦ elim (Option-cases (g.connection_of a.use_station b.use_station)) [
        | inl n ↦ rw (e, n) closed.identity
        | inr (c, n) ↦ elim (Bool-cases (forced b rest)) [
          | inl f ↦ rw (e, n, f) closed.identity
          | inr f ↦
              rw (e, n, f)
                (closed.compose _ _ (process_wait-closed c a) (process_crossing-closed c a b))
        ]
      ]
    ]

    pub process_uses-closed : (us : List StationUse) → P (λ t. process_uses g us t)
    unfolding process_uses process_change
    process_uses-closed [] = closed.identity
    process_uses-closed (a ∷ []) = closed.identity
    process_uses-closed (a ∷ b ∷ rest) =
        let after_pair =
          closed.compose _ _ (process_uses-closed (b ∷ rest)) (process_pair-closed a b rest) in
        elim (Bool-cases a.manual) [
          | inl e ↦ rw e (process_uses-closed (b ∷ rest))
          | inr e ↦ elim (Bool-cases (is_interchange a.use_type)) [
            | inr i ↦ rw (e, i) after_pair
            | inl i ↦
                elim (Option-cases (g.transfer_of a.use_station a.source_line a.target_line)) [
                  | inl n ↦ rw (e, i, n) closed.identity
                  | inr (tr, n) ↦
                      rw (e, i, n) (closed.compose _ _ after_pair (process_transfer-closed tr a))
                ]
          ]
        ]

    pub process_trips-closed : (trips : List Trip) → P (λ t. process_trips g trips t)
    unfolding process_trips
    process_trips-closed [] = closed.identity
    process_trips-closed (x ∷ xs) =
        closed.compose _ _ (process_trips-closed xs) (process_uses-closed x.station_uses)
