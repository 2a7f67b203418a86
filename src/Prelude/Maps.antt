-- ===== src/Prelude/Maps.antt =====
-- Go maps as association lists with one entry for a key.
use Prim.Native.Nat.{ℕ}
use mathlib.Core.Path.{◌≡◌}
use mathlib.Core.List.{List, [], ◌∷◌}
use native.Mathlib.Omega.{arith}
use disturbancesmlx.Prelude.Tests.{◌==◌, if◌then◌else◌}

module _ {ℓ} {A : Type ℓ} where
  -- delete(m, key)
  unfoldable pub delete_key : ℕ → List (ℕ × A) → List (ℕ × A)
  delete_key k [] = []
  delete_key k (x ∷ xs) = if x.0 == k then delete_key k xs else x ∷ delete_key k xs

  -- m[key] = v
  unfoldable pub set_key : ℕ → A → List (ℕ × A) → List (ℕ × A)
  set_key k v xs = (k, v) ∷ delete_key k xs

  -- m[key], with the zero value `zero_value` where there is none.
  unfoldable pub at_key : A → ℕ → List (ℕ × A) → A
  at_key zero_value k [] = zero_value
  at_key zero_value k (x ∷ xs) = if x.0 == k then x.1 else at_key zero_value k xs

  pub at_key-delete_key :
      (z : A) (c k : ℕ) (xs : List (ℕ × A))
      → at_key z c (delete_key k xs) ≡ (if k == c then z else at_key z c xs)
  unfolding at_key delete_key
  at_key-delete_key z c k [] = ground arith
  at_key-delete_key z c k (x ∷ xs) = ground (arith, at_key-delete_key z c k xs)

  pub at_key-set_key :
      (z v : A) (c k : ℕ) (xs : List (ℕ × A))
      → at_key z c (set_key k v xs) ≡ (if k == c then v else at_key z c xs)
  unfolding at_key set_key
  at_key-set_key z v c k xs = ground (arith, at_key-delete_key z c k xs)
