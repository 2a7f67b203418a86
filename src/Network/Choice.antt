-- ===== src/Network/Choice.antt =====
-- The holidays are searched in order, and the schedule of a day is chosen by three rules.
use disturbancesmlx.Prelude.{
  ℕ, zero, suc, ◌≤◌, ◌<◌, ◌≡◌, refl, ap, ◌∙◌, inl, inr, Bool, true, false, ◌||◌, some, List, [],
  ◌∷◌, arith, length, get_elem?, ltb, ◌==◌, Bool-cases, subst, ◌⊎◌, Option, none, Has, leb,
  Option-cases,
}
use disturbancesmlx.Network.Schedules.{
  at_least, LineSchedule, Day, search_ints, is_holiday, first_schedule, overrides, for_holidays,
  for_weekday, get_schedule_for_day,
}
use disturbancesmlx.Network.Search.{EndsAt, search_from-EndsAt}

abbrev pub Sorted : List ℕ → Type 0
Sorted [] = Unit
Sorted (x ∷ []) = Unit
Sorted (x ∷ y ∷ ys) = x ≤ y × Sorted (y ∷ ys)

abbrev pub has_number : ℕ → List ℕ → Bool
has_number x [] = false
has_number x (y ∷ ys) = y == x || has_number x ys

tail-Sorted : (x : ℕ) (xs : List ℕ) → Sorted (x ∷ xs) → Sorted xs
tail-Sorted x [] h = tt
tail-Sorted x (y ∷ ys) h = h.1

head_least : (x : ℕ) (xs : List ℕ) (j b : ℕ) → Sorted (x ∷ xs) → get_elem? xs j ≡ some b → x ≤ b
head_least x [] j b h e = cc
head_least x (y ∷ ys) zero b h e = let q : y ≡ b = cc in ground (arith, h.0)
head_least x (y ∷ ys) (suc j) b h e = let rest = head_least y ys j b h.1 e in ground (arith, h.0)

ordered_get :
    (xs : List ℕ) (i j a b : ℕ)
    → Sorted xs
    → i ≤ j
    → get_elem? xs i ≡ some a
    → get_elem? xs j ≡ some b
    → a ≤ b
ordered_get [] i j a b h le p q = cc
ordered_get (x ∷ xs) zero zero a b h le p q = let e : a ≡ b = cc in ground arith
ordered_get (x ∷ xs) zero (suc j) a b h le p q =
    let e : x ≡ a = cc in ground (arith, head_least x xs j b h q)
ordered_get (x ∷ xs) (suc i) zero a b h le p q = ground arith
ordered_get (x ∷ xs) (suc i) (suc j) a b h le p q =
    ordered_get xs i j a b (tail-Sorted x xs h) (omega arith) p q

index_of :
    (x : ℕ) (xs : List ℕ)
    → has_number x xs ≡ true
    → (k : ℕ) × (get_elem? xs k ≡ some x) × (k < length xs)
index_of x [] h = cc
index_of x (y ∷ ys) h = elim (Bool-cases (y == x)) [
  | inl e ↦ let q : y ≡ x = ground arith in (0, ap some q, ground arith)
  | inr e ↦ let (k, p, lt) = index_of x ys (ground arith) in (suc k, p, ground arith)
]

index_has :
    (x : ℕ) (xs : List ℕ) (k y : ℕ)
    → get_elem? xs k ≡ some y
    → (y == x) ≡ true
    → has_number x xs ≡ true
index_has x [] k y e q = cc
index_has x (z ∷ zs) zero y e q = let p : z ≡ y = cc in rw (p, q) refl
index_has x (z ∷ zs) (suc k) y e q = rw (index_has x zs k y e q) (ground arith)

in_range : (xs : List ℕ) (r : ℕ) → r < length xs → (y : ℕ) × (get_elem? xs r ≡ some y)
in_range [] r h = absurd (ground arith)
in_range (x ∷ xs) zero h = (x, refl)
in_range (x ∷ xs) (suc r) h = in_range xs r (omega arith)

at_least-leb : (xs : List ℕ) (x r y : ℕ) → get_elem? xs r ≡ some y → at_least xs x r ≡ leb x y
at_least-leb xs x r y p = rw (p, at_least) refl

module _ (xs : List ℕ) (x : ℕ) (sorted : Sorted xs) where
  found_at :
      (r k : ℕ)
      → EndsAt (at_least xs x) 0 (length xs) r
      → get_elem? xs k ≡ some x
      → k < length xs
      → (get_elem? xs r ≡ some x)
  found_at r k t e lt = elim (Bool-cases (ltb k r)) [
    | inl q ↦ absurd (too_far r q t.upto t.fails_before)
    | inr q ↦
        let (y, p) = in_range xs r (ground arith) in
        let up : x ≤ y = above y p (t.holds (ground arith)) in
        let down : y ≤ x = ordered_get xs r k y x sorted (ground arith) p e in
        let same : y ≡ x = omega arith in p ∙ ap some same
  ]
    where
      above : (y : ℕ) → get_elem? xs r ≡ some y → at_least xs x r ≡ true → x ≤ y
      above y p h = let q = at_least-leb xs x r y p in ground arith

      too_far :
          (r' : ℕ)
          → ltb k r' ≡ true
          → r' ≤ length xs
          → ((k' : ℕ) → 0 < suc k' → suc k' ≡ r' → at_least xs x k' ≡ false)
          → ⊥
      too_far zero q le h = ground arith
      too_far (suc r') q le h =
          let (y, p) = in_range xs r' (omega arith) in
          let low = h r' (omega arith) refl in
          let same = at_least-leb xs x r' y p in
          let up = ordered_get xs k r' x y sorted (ground arith) e p in ground arith

  -- On sorted numbers the search finds exactly the numbers that are there.
  pub is_holiday-has_number : is_holiday xs x ≡ has_number x xs
  unfolding is_holiday search_ints
  is_holiday-has_number =
      let (r, q, t) =
        search_from-EndsAt (at_least xs x) (length xs) 0 (length xs) (omega arith) (omega arith) in
      rw (q, is_holiday)
        (elim (Bool-cases (has_number x xs)) [
          | inl h ↦
              let (k, e, lt) = index_of x xs h in
              let f = found_at r k t e lt in rw (f, h) (ground arith)
          | inr h ↦ rw h (lacks r h)
        ])
    where
      lacks :
          (r : ℕ)
          → has_number x xs ≡ false
          → (elim (get_elem? xs r) as (λ o. Bool) [ none ↦ false | some y ↦ y == x ]) ≡ false
      lacks r h = elim (Option-cases (get_elem? xs r)) [
        | inl e ↦ rw e refl
        | inr (y, e) ↦ elim (Bool-cases (y == x)) [
          | inl q ↦ absurd (clash (index_has x xs r y e q))
          | inr q ↦ rw (e, q) refl
        ]
      ]
        where
          clash : has_number x xs ≡ true → ⊥
          clash h' = cc

-- What a schedule is chosen by. Nothing on the list satisfies the test:
abbrev pub NoneOf : (LineSchedule → Bool) → List LineSchedule → Type 0
NoneOf p ss = (s : LineSchedule) → Has s ss → p s ≡ false

pub data Chosen (holidays : List ℕ) (d : Day) (ss : List LineSchedule)
    : Option LineSchedule → Type 0 where
  by_override : {s : LineSchedule} → Has s ss → overrides d s ≡ true → Chosen holidays d ss (some s)
  on_holiday :
      {s : LineSchedule}
      → NoneOf (overrides d) ss
      → has_number d.year_day holidays ≡ true
      → Has s ss
      → for_holidays s ≡ true
      → Chosen holidays d ss (some s)
  on_weekday :
      {s : LineSchedule}
      → NoneOf (overrides d) ss
      → (has_number d.year_day holidays ≡ false) ⊎ NoneOf for_holidays ss
      → Has s ss
      → for_weekday d s ≡ true
      → Chosen holidays d ss (some s)
  by_nothing :
      NoneOf (overrides d) ss
      → (has_number d.year_day holidays ≡ false) ⊎ NoneOf for_holidays ss
      → NoneOf (for_weekday d) ss
      → Chosen holidays d ss none

pub first_cases :
    (p : LineSchedule → Bool) (ss : List LineSchedule)
    → ((first_schedule p ss ≡ none) × NoneOf p ss)
      ⊎ ((s : LineSchedule) × (first_schedule p ss ≡ some s) × Has s ss × (p s ≡ true))
unfolding first_schedule
first_cases p [] = inl (refl, λ s h. absurd h)
first_cases p (x ∷ xs) = elim (Bool-cases (p x)) [
  | inl e ↦ inr (x, rw e refl, inl refl, e)
  | inr e ↦ elim (first_cases p xs) [
    | inl (q, n) ↦
        inl (rw e q, λ s h. elim h [ inl same ↦ subst (λ y. p y ≡ false) same e | inr m ↦ n s m ])
    | inr (s, q, m, y) ↦ inr (s, rw e q, inr m, y)
  ]
]

module _ (holidays : List ℕ) (d : Day) (ss : List LineSchedule) (sorted : Sorted holidays) where
  weekday_rule :
      NoneOf (overrides d) ss
      → (has_number d.year_day holidays ≡ false) ⊎ NoneOf for_holidays ss
      → Chosen holidays d ss (first_schedule (for_weekday d) ss)
  weekday_rule n o = elim (first_cases (for_weekday d) ss) [
    | inl (q, w) ↦ rw q (by_nothing n o w)
    | inr (s, q, m, y) ↦ rw q (on_weekday n o m y)
  ]

  -- With the holidays in order, the schedule of a day is one for that very day if there is one, else on
  -- a holiday one for holidays if there is one, else one for the weekday, and nil if none of these is
  -- there.
  pub get_schedule_for_day-Chosen : Chosen holidays d ss (get_schedule_for_day holidays d ss)
  unfolding get_schedule_for_day
  get_schedule_for_day-Chosen = elim (first_cases (overrides d) ss) [
    | inr (s, q, m, y) ↦ rw q (by_override m y)
    | inl (q, n) ↦
        rw (q, is_holiday-has_number holidays d.year_day sorted)
          (elim (Bool-cases (has_number d.year_day holidays)) [
            | inr h ↦ rw h (weekday_rule n (inl h))
            | inl h ↦ rw h (elim (first_cases for_holidays ss) [
              | inr (s, q', m, y) ↦ rw q' (on_holiday n h m y)
              | inl (q', n') ↦ rw q' (weekday_rule n (inr n'))
            ])
          ])
  ]
