-- ===== src/Network/Terminus.antt =====
-- The direction of a connection follows from where its ends stand on the line.
use disturbancesmlx.Prelude.{
  ℕ, ◌+◌, ◌≡◌, inl, inr, Bool, ◌&&◌, ◌||◌, Option, none, some, List, arith, get_elem?, ◌==◌,
  if◌then◌else◌, Option-cases, suc, ◌≤◌, ◌<◌, refl, sym, ap, ◌∙◌, [], ◌∷◌, Bool-cases, ◌-◌, false,
  ◌≢◌, leb,
}
use disturbancesmlx.Network.Direction.{
  is_at, closed_at, last_station, direction_from, get_direction_for_connection,
}

-- No station is twice on the line.
abbrev pub Unique : List ℕ → Type 0
Unique xs = (i j a : ℕ) → get_elem? xs i ≡ some a → get_elem? xs j ≡ some a → i ≡ j

-- The two stations follow each other, or only a closed station is between them.
abbrev pub joined_by : (closed : ℕ → Option Bool) → List ℕ → ℕ → ℕ → Bool
joined_by closed xs i j = j == i + 1 || (j == i + 2 && closed_at closed xs (i + 1))

-- The terminus of a connection from the index i to the index j.
abbrev pub terminus : (closed : ℕ → Option Bool) → List ℕ → ℕ → ℕ → Option ℕ
terminus closed xs i j =
    if joined_by closed xs i j
    then last_station closed xs
    else if joined_by closed xs j i
    then get_elem? xs 0
    else none

-- The tests of the loop, at the index i of the source.
in_order :
    (c : ℕ → Bool) (a b : Option ℕ) (i j : ℕ)
    → (if i + 1 == j
        then a
        else if i + 2 == j && c (i + 1)
        then a
        else if leb 1 i && i - 1 == j
        then b
        else if leb 2 i && i - 2 == j && c (i - 1)
        then b
        else none)
      ≡ (if j == i + 1 || (j == i + 2 && c (i + 1))
          then a
          else if i == j + 1 || (i == j + 2 && c (j + 1))
          then b
          else none)
in_order c a b i j = elim (Bool-cases (i == j + 2)) [
  | inl e ↦ let before : i - 1 ≡ j + 1 = ground arith in rw before (ground arith)
  | inr e ↦ ground arith
]

module _ (closed : ℕ → Option Bool) (xs : List ℕ) (unique : Unique xs) where
  is_at-index : (m j x : ℕ) → get_elem? xs j ≡ some x → is_at xs m x ≡ (m == j)
  is_at-index m j x e = elim (Option-cases (get_elem? xs m)) [
    | inl n ↦ rw (n, is_at) (ground arith)
    | inr (y, n) ↦ rw (n, is_at) (same_number y n)
  ]
    where
      same_number : (y : ℕ) → get_elem? xs m ≡ some y → (y == x) ≡ (m == j)
      same_number y n = elim (Bool-cases (m == j)) [
        | inl q ↦
            let at_m : m ≡ j = ground arith in
            let same : some y ≡ some x = sym n ∙ ap (get_elem? xs) at_m ∙ e in
            let eq : y ≡ x = cc in ground arith
        | inr q ↦ elim (Bool-cases (y == x)) [
          | inl p ↦
              let eq : y ≡ x = ground arith in
              let at_m = unique m j x (n ∙ ap some eq) e in ground arith
          | inr p ↦ rw (q, p) refl
        ]
      ]

  -- What the loop does from the index `k` on, whose stations are `rest`.
  after_source :
      (source target i k : ℕ) (rest : List ℕ)
      → get_elem? xs i ≡ some source
      → ((m : ℕ) → get_elem? rest m ≡ get_elem? xs (k + m))
      → i < k
      → direction_from closed xs source target k rest ≡ none
  unfolding direction_from
  after_source source target i k [] e same lt = refl
  after_source source target i k (s ∷ ss) e same lt = elim (Bool-cases (s == source)) [
    | inl q ↦
        let eq : s ≡ source = ground arith in
        let here : get_elem? xs k ≡ some source =
          ap (get_elem? xs) (omega arith) ∙ sym (same 0) ∙ ap some eq in
        let at_k = unique i k source e here in absurd (omega arith)
    | inr q ↦ rw q (
        after_source source target i (suc k) ss e
          (λ m. same (suc m) ∙ ap (get_elem? xs) (omega arith)) (omega arith))
  ]

  from_source :
      (source target i j k : ℕ) (rest : List ℕ)
      → get_elem? xs i ≡ some source
      → get_elem? xs j ≡ some target
      → ((m : ℕ) → get_elem? rest m ≡ get_elem? xs (k + m))
      → k ≤ i
      → direction_from closed xs source target k rest ≡ terminus closed xs i j
  unfolding direction_from
  from_source source target i j k [] e e' same le =
      let gone = same (i - k) in
      let there : get_elem? xs (k + (i - k)) ≡ some source = ap (get_elem? xs) (omega arith) ∙ e in
      cc
  from_source source target i j k (s ∷ ss) e e' same le = elim (Bool-cases (s == source)) [
    | inl q ↦
        let eq : s ≡ source = ground arith in
        let here : get_elem? xs k ≡ some source =
          ap (get_elem? xs) (omega arith) ∙ sym (same 0) ∙ ap some eq in
        let at_i : k ≡ i = unique k i source here e in
        rw
          (
            q,
            is_at-index (k + 1) j target e',
            is_at-index (k + 2) j target e',
            is_at-index (k - 1) j target e',
            is_at-index (k - 2) j target e',
            after_source source target i (suc k) ss e
                (λ m. same (suc m) ∙ ap (get_elem? xs) (omega arith)) (omega arith),
            at_i,
          )
          (in_order (closed_at closed xs) (last_station closed xs) (get_elem? xs 0) i j)
    | inr q ↦ rw q (
        from_source source target i j (suc k) ss e e'
          (λ m. same (suc m) ∙ ap (get_elem? xs) (omega arith)) (later q))
  ]
    where
      later : (s == source) ≡ false → suc k ≤ i
      later q = elim (Bool-cases (k == i)) [
        | inl p ↦
            let at_i : k + 0 ≡ i = ground arith in
            let here : some s ≡ some source = same 0 ∙ ap (get_elem? xs) at_i ∙ e in
            let eq : s ≡ source = cc in ground arith
        | inr p ↦ ground arith
      ]

  none_from :
      (source target k : ℕ) (rest : List ℕ)
      → ((m : ℕ) → get_elem? rest m ≢ some source)
      → direction_from closed xs source target k rest ≡ none
  unfolding direction_from
  none_from source target k [] h = refl
  none_from source target k (s ∷ ss) h = elim (Bool-cases (s == source)) [
    | inl q ↦ let eq : s ≡ source = ground arith in absurd (h 0 (ap some eq))
    | inr q ↦ rw q (none_from source target (suc k) ss (λ m. h (suc m)))
  ]

  -- On a line without repeated stations, a connection between the stations at the indices i and j leads to the
  -- last station if j follows i, to the first one if i follows j, where one closed station may be left
  -- out, and is an error otherwise. It is an error too if its source is not on the line.
  pub get_direction_for_connection_lem :
      (source target : ℕ)
      → ((i j : ℕ)
          → get_elem? xs i ≡ some source
          → get_elem? xs j ≡ some target
          → get_direction_for_connection closed (some xs) source target ≡ terminus closed xs i j)
        × (((i : ℕ) → get_elem? xs i ≢ some source)
            → get_direction_for_connection closed (some xs) source target ≡ none)
  unfolding get_direction_for_connection
  get_direction_for_connection_lem source target = (
    λ i j e e'.
        from_source source target i j 0 xs e e' (λ m. ap (get_elem? xs) (omega arith))
          (omega arith),
    none_from source target 0 xs,
  )
