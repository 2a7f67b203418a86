-- ===== src/Prelude/Tables.antt =====
-- Tables of a database as lists of rows: upsert on a primary key, counting, sorting, membership.
use Prim.Native.Nat.{ℕ, ◌+◌, ◌≤◌}
use mathlib.Core.Path.{◌≡◌, refl, ◌∙◌, ap, subst}
use mathlib.Core.Logic.{◌≢◌, ◌⊎◌, inl, inr}
use mathlib.Core.Bool.{◌&&◌, Bool, true}
use mathlib.Core.List.{List, [], ◌∷◌}
use mathlib.Core.Option.{Option, none, some}
use native.Mathlib.Omega.{arith}
use disturbancesmlx.Prelude.Tests.{◌==◌, ltb, if◌then◌else◌, Bool-cases}
use disturbancesmlx.Prelude.Lists.{length}

module _ {A : Type 0} where
  -- INSERT … ON CONFLICT (key) DO UPDATE: the row with the key is replaced, or a row is added.
  unfoldable pub upsert : (A → ℕ) → A → List A → List A
  upsert key x [] = x ∷ []
  upsert key x (y ∷ ys) = if key y == key x then x ∷ ys else y ∷ upsert key x ys

  -- The rows that a test selects, in the table's order.
  unfoldable pub select : (A → Bool) → List A → List A
  select p [] = []
  select p (x ∷ xs) = if p x then x ∷ select p xs else select p xs

  abbrev pub count : (A → Bool) → List A → ℕ
  count p [] = 0
  count p (x ∷ xs) = (if p x then 1 else 0) + count p xs

  insert_by : (A → ℕ) → A → List A → List A
  insert_by key x [] = x ∷ []
  insert_by key x (y ∷ ys) = if ltb (key y) (key x) then y ∷ insert_by key x ys else x ∷ y ∷ ys

  -- sort.SliceStable and ORDER BY … ASC, on a numeric key.
  unfoldable pub sort_by : (A → ℕ) → List A → List A
  unfolding insert_by
  sort_by key [] = []
  sort_by key (x ∷ xs) = insert_by key x (sort_by key xs)

  abbrev pub get_last? : List A → Option A
  get_last? [] = none
  get_last? (x ∷ xs) = elim (get_last? xs) [ none ↦ some x | some y ↦ some y ]

  -- A row of the table.
  abbrev pub Has : A → List A → Type 0
  Has x [] = ⊥
  Has x (y ∷ ys) = (y ≡ x) ⊎ Has x ys

  -- No row has the key.
  abbrev pub Fresh : (A → ℕ) → ℕ → List A → Type 0
  Fresh key k [] = Unit
  Fresh key k (y ∷ ys) = (key y ≢ k) × Fresh key k ys

  -- The key is a primary key.
  abbrev pub Keyed : (A → ℕ) → List A → Type 0
  Keyed key [] = Unit
  Keyed key (y ∷ ys) = Fresh key (key y) ys × Keyed key ys

  pub count-upsert-Fresh :
      (key : A → ℕ) (p : A → Bool) (x : A) (ys : List A)
      → Fresh key (key x) ys
      → count p (upsert key x ys) ≡ count p ys + (if p x then 1 else 0)
  unfolding upsert
  count-upsert-Fresh key p x [] h = omega arith
  count-upsert-Fresh key p x (y ∷ ys) h = ground (arith, count-upsert-Fresh key p x ys h.1)

  pub key-ne_of_Fresh :
      (key : A → ℕ) (k : ℕ) (x : A) (ys : List A) → Fresh key k ys → Has x ys → key x ≢ k
  key-ne_of_Fresh key k x [] h m = absurd m
  key-ne_of_Fresh key k x (y ∷ ys) h (inl e) = λ q. h.0 (ap key e ∙ q)
  key-ne_of_Fresh key k x (y ∷ ys) h (inr m) = key-ne_of_Fresh key k x ys h.1 m

  pub count-upsert_replace :
      (key : A → ℕ) (p : A → Bool) (x' x : A) (ys : List A)
      → Keyed key ys
      → Has x ys
      → key x ≡ key x'
      → count p (upsert key x' ys) + (if p x then 1 else 0) ≡ count p ys + (if p x' then 1 else 0)
  unfolding upsert
  count-upsert_replace key p x' x [] h m e = absurd m
  count-upsert_replace key p x' x (y ∷ ys) h (inl q) e =
      subst
        (λ z.
          count p (upsert key x' (y ∷ ys)) + (if p z then 1 else 0)
          ≡ count p (y ∷ ys) + (if p x' then 1 else 0))
        q (first x' y ys (ap key q ∙ e))
    where
      first :
          (x' y : A) (ys : List A)
          → key y ≡ key x'
          → count p (upsert key x' (y ∷ ys)) + (if p y then 1 else 0)
            ≡ count p (y ∷ ys) + (if p x' then 1 else 0)
      first x' y ys e = ground arith
  count-upsert_replace key p x' x (y ∷ ys) h (inr m) e =
      ground
        (arith, count-upsert_replace key p x' x ys h.1 m e, key-ne_of_Fresh key (key y) x ys h.0 m)

  Fresh-upsert :
      (key : A → ℕ) (k : ℕ) (x : A) (ys : List A)
      → Fresh key k ys
      → key x ≢ k
      → Fresh key k (upsert key x ys)
  unfolding upsert
  Fresh-upsert key k x [] h e = (e, tt)
  Fresh-upsert key k x (y ∷ ys) h e = elim (Bool-cases (key y == key x)) [
    | inl q ↦ rw q (e, h.1)
    | inr q ↦ rw q (h.0, Fresh-upsert key k x ys h.1 e)
  ]

  pub upsert-Keyed :
      (key : A → ℕ) (x : A) (ys : List A) → Keyed key ys → Keyed key (upsert key x ys)
  unfolding upsert
  upsert-Keyed key x [] h = (tt, tt)
  upsert-Keyed key x (y ∷ ys) h = elim (Bool-cases (key y == key x)) [
    | inl q ↦ let e : key y ≡ key x = ground arith in rw (q, ← e) (h.0, h.1)
    | inr q ↦
        let e : key x ≢ key y = ground arith in
        rw q (Fresh-upsert key (key y) x ys h.0 e, upsert-Keyed key x ys h.1)
  ]

  pub length-select : (p : A → Bool) (xs : List A) → length (select p xs) ≡ count p xs
  unfolding select
  length-select p [] = refl
  length-select p (x ∷ xs) = ground (arith, length-select p xs)

  -- What a selection of at most one row is.
  abbrev pub AtMostOne : (A → Bool) → List A → Type 0
  AtMostOne p xs = (select p xs ≡ []) ⊎ ((x : A) × (select p xs ≡ x ∷ []) × Has x xs × (p x ≡ true))

  pub select_none : (p : A → Bool) (xs : List A) → count p xs ≡ 0 → select p xs ≡ []
  unfolding select
  select_none p [] h = refl
  select_none p (x ∷ xs) h = ground (arith, select_none p xs)

  pub select-AtMostOne : (p : A → Bool) (xs : List A) → count p xs ≤ 1 → AtMostOne p xs
  unfolding select
  select-AtMostOne p [] h = inl refl
  select-AtMostOne p (x ∷ xs) h = elim (Bool-cases (p x)) [
    | inl q ↦
        let none_left : select p xs ≡ [] = select_none p xs (ground arith) in
        inr (x, rw (q, none_left), inl refl, q)
    | inr q ↦ elim (select-AtMostOne p xs (ground arith)) [
      | inl e ↦ inl (rw q e)
      | inr (y, e, m, t) ↦ inr (y, rw q e, inr m, t)
    ]
  ]

  -- Counting the rows of a selection.
  pub count-select :
      (p q : A → Bool) (xs : List A) → count q (select p xs) ≡ count (λ x. p x && q x) xs
  unfolding select
  count-select p q [] = refl
  count-select p q (x ∷ xs) = ground (arith, count-select p q xs)
