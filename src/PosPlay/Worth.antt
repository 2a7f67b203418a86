-- ===== src/PosPlay/Worth.antt =====
-- What the points of a trip count.
use disturbancesmlx.Prelude.{
  ℕ, ◌+◌, ◌*◌, ◌≤◌, ◌<◌, ◌≡◌, subst, ◌↔◌, ◌⊎◌, inl, inr, true, false, List, [], ◌∷◌, arith, length,
  Has, Fresh, Keyed, ◌==◌, Bool-cases,
}
use disturbancesmlx.Clock.{Time}
use disturbancesmlx.PosPlay.Reward.{
  is_key, visit_all, stations_of, interchanges_of, on_peak, compute_reward,
}
use disturbancesmlx.Trips.Model.{Trip}
use disturbancesmlx.Vehicles.Passengers.{seen}

-- The list has every member once, and the members that are asked for.
abbrev pub Lists : (ℕ → Type 0) → List ℕ → Type 0
Lists P xs = Keyed (λ x. x) xs × ((x : ℕ) → Has x xs ↔ P x)

Fresh-is_key : (x : ℕ) (xs : List ℕ) → is_key x xs ≡ false → Fresh (λ y. y) x xs
Fresh-is_key x [] h = tt
Fresh-is_key x (y ∷ ys) h = (ground arith, Fresh-is_key x ys (ground arith))

Has-is_key : (x : ℕ) (xs : List ℕ) → is_key x xs ≡ true → Has x xs
Has-is_key x [] h = cc
Has-is_key x (y ∷ ys) h = elim (Bool-cases (y == x)) [
  | inl e ↦ inl (ground arith)
  | inr e ↦ inr (Has-is_key x ys (ground arith))
]

visit_all-Keyed : (seen xs : List ℕ) → Keyed (λ x. x) seen → Keyed (λ x. x) (visit_all seen xs)
unfolding visit_all
visit_all-Keyed seen [] h = h
visit_all-Keyed seen (x ∷ xs) h = elim (Bool-cases (is_key x seen)) [
  | inl e ↦ rw e (visit_all-Keyed seen xs h)
  | inr e ↦ rw e (visit_all-Keyed (x ∷ seen) xs (Fresh-is_key x seen e, h))
]

visit_all-Has : (y : ℕ) (seen xs : List ℕ) → Has y (visit_all seen xs) ↔ (Has y seen ⊎ Has y xs)
unfolding visit_all
visit_all-Has y seen [] = (inl, λ m. elim m [ inl k ↦ k | inr k ↦ absurd k ])
visit_all-Has y seen (x ∷ xs) = elim (Bool-cases (is_key x seen)) [
  | inl e ↦
      let rest = visit_all-Has y seen xs in
      rw e (
        λ m. elim (rest.0 m) [ inl k ↦ inl k | inr k ↦ inr (inr k) ],
        λ m. rest.1 (elim m [
          | inl k ↦ inl k
          | inr (inl q) ↦ inl (subst (λ z. Has z seen) q (Has-is_key x seen e))
          | inr (inr k) ↦ inr k
        ]),
      )
  | inr e ↦
      let rest = visit_all-Has y (x ∷ seen) xs in
      rw e (
        λ m. elim (rest.0 m) [
          | inl (inl q) ↦ inr (inl q)
          | inl (inr k) ↦ inl k
          | inr k ↦ inr (inr k)
        ],
        λ m.
            rest.1
              (elim m [ inl k ↦ inl (inr k) | inr (inl q) ↦ inl (inl q) | inr (inr k) ↦ inr k ]),
      )
]

visited : (xs : List ℕ) → Lists (λ x. Has x xs) (visit_all [] xs)
visited xs = (
  visit_all-Keyed [] xs tt,
  λ x. (
    λ m. elim ((visit_all-Has x [] xs).0 m) [ inl k ↦ absurd k | inr k ↦ k ],
    λ m. (visit_all-Has x [] xs).1 (inr m),
  ),
)

-- The reward counts the different stations of the trip and those of its interchanges, each once;
-- it is 0 for fewer than two stations, and otherwise between 7 and 9 points for each of these, 7
-- in the hours of most traffic.
pub compute_reward_lem :
    (hour_of : Time → ℕ) (t : Trip)
    → let r = compute_reward hour_of t in
      (stops : List ℕ) × (changes : List ℕ) × Lists (λ x. Has x (stations_of t.station_uses)) stops
      × Lists (λ x. Has x (interchanges_of t.station_uses)) changes
      × (r.station_count ≡ length stops)
      × (r.interchange_count ≡ length changes)
      × (r.station_count < 2 → r.xp ≡ 0)
      × (2 ≤ r.station_count
          → (7 * (length stops + length changes) ≤ r.xp)
            × (r.xp ≤ 9 * (length stops + length changes))
            × (on_peak (hour_of t.start_time) ≡ true → r.xp ≡ 7 * (length stops + length changes)))
unfolding compute_reward
compute_reward_lem hour_of t = (
  visit_all [] (stations_of t.station_uses),
  visit_all [] (interchanges_of t.station_uses),
  visited (stations_of t.station_uses),
  visited (interchanges_of t.station_uses),
  ground arith,
  ground arith,
  λ h. ground arith,
  λ h. (ground arith, ground arith, λ p. ground arith),
)
