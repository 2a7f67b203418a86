-- ===== src/Network/Search.antt =====
-- Go's sort.Search, which getScheduleForDay calls for the holidays (types/line.go): it ends, for any
-- test, and finds a number in a sorted list.
use disturbancesmlx.Prelude.{
  ℕ, zero, suc, ◌+◌, ◌/◌, ◌≤◌, ◌<◌, ◌≡◌, refl, inl, inr, Bool, true, false, some, arith, ltb,
  Bool-cases,
}
use disturbancesmlx.Network.Schedules.{search_from}

-- Where the search ends: the test holds there and not just before, unless it is an end of the range.
pub record EndsAt (f : ℕ → Bool) (i j r : ℕ) : Type 0 where
  pub from : i ≤ r
  pub upto : r ≤ j
  pub holds : r < j → f r ≡ true
  pub fails_before : (k : ℕ) → i < suc k → suc k ≡ r → f k ≡ false

module _ (f : ℕ → Bool) where
  at_middle : (r m : ℕ) → f m ≡ true → r ≤ m → (r < m → f r ≡ true) → f r ≡ true
  at_middle r m y le h = elim (Bool-cases (ltb r m)) [
    | inl e ↦ h (ground arith)
    | inr e ↦ let q : r ≡ m = ground arith in rw q y
  ]

  before_middle :
      (r m k : ℕ)
      → f m ≡ false
      → suc m ≤ r
      → ((k : ℕ) → suc m < suc k → suc k ≡ r → f k ≡ false)
      → suc k ≡ r
      → f k ≡ false
  before_middle r m k n le h e = elim (Bool-cases (ltb m k)) [
    | inl q ↦ h k (ground arith) e
    | inr q ↦ let q' : k ≡ m = ground arith in rw q' n
  ]

  -- The loop ends within as many rounds as the interval has numbers, whatever the test is.
  pub search_from-EndsAt :
      (fuel i j : ℕ)
      → i ≤ j
      → j ≤ i + fuel
      → (r : ℕ) × (search_from f fuel i j ≡ some r) × EndsAt f i j r
  unfolding search_from
  search_from-EndsAt zero i j le enough = (
    i,
    ground arith,
    record {
      from = omega arith;
      upto = le;
      holds = λ h. ground arith;
      fails_before = λ k h e. ground arith;
    },
  )
  search_from-EndsAt (suc fuel) i j le enough = elim (Bool-cases (ltb i j)) [
    | inr e ↦ (
      i,
      rw e refl,
      record {
        from = omega arith;
        upto = le;
        holds = λ h. ground arith;
        fails_before = λ k h e'. ground arith;
      },
    )
    | inl e ↦ elim (Bool-cases (f ((i + j) / 2))) [
      | inl y ↦
          let (r, q, t) = search_from-EndsAt fuel i ((i + j) / 2) (ground arith) (ground arith) in
          (
            r,
            rw (e, y) q,
            record {
              from = t.from;
              upto = ground (arith, t.upto);
              holds = λ h. at_middle r ((i + j) / 2) y t.upto t.holds;
              fails_before = t.fails_before;
            },
          )
      | inr n ↦
          let (r, q, t) =
            search_from-EndsAt fuel (suc ((i + j) / 2)) j (ground arith) (ground arith) in
          (
            r,
            rw (e, n) q,
            record {
              from = ground (arith, t.from);
              upto = t.upto;
              holds = t.holds;
              fails_before = λ k h e'. before_middle r ((i + j) / 2) k n t.from t.fails_before e';
            },
          )
    ]
  ]
