-- ===== src/Reports/Cache.antt =====
-- The expiring cache (github.com/patrickmn/go-cache) that the handlers keep their data in, as an
-- interface: its operations, and what its documentation promises of them.
use disturbancesmlx.Prelude.{
  ℕ, ◌+◌, ◌≤◌, ◌<◌, ◌≡◌, Bool, true, false, ◌||◌, Option, none, some, List, [], ◌∷◌, if◌then◌else◌,
}
use disturbancesmlx.Clock.{Time}

-- sum of f over the items, which a Go map gives in any order.
abbrev pub total {ℓ} : {A : Type ℓ} → (A → ℕ) → List A → ℕ
total f [] = 0
total f (x ∷ xs) = f x + total f xs

pub record Cache (K V : Type 0) : Type 1 where
  pub Carrier : Type 0
  -- Items(): the items that have not expired.
  pub items : Time → Carrier → List (K × V)
  -- Add(k, x, d): an error if the key has an item that has not expired.
  pub add : Time → K → V → ℕ → Carrier → Option Carrier
  -- Set(k, x, d)
  pub set_item : Time → K → V → ℕ → Carrier → Carrier
  -- Delete(k)
  pub delete : K → Carrier → Carrier

-- Some item has the key.
abbrev pub has_key {ℓ} : {K : Type ℓ} {V : Type ℓ} → (K → K → Bool) → K → List (K × V) → Bool
has_key eq k [] = false
has_key eq k ((j, v) ∷ xs) = eq j k || has_key eq k xs

pub record IsCache {K V : Type 0} (eq : K → K → Bool) (c : Cache K V) : Type 0 where
  pub add_present :
      (now : Time) (k : K) (v : V) (ttl : ℕ) (s : c.Carrier)
      → has_key eq k (c.items now s) ≡ true
      → c.add now k v ttl s ≡ none
  pub add_absent :
      (now : Time) (k : K) (v : V) (ttl : ℕ) (s : c.Carrier)
      → has_key eq k (c.items now s) ≡ false
      → (s' : c.Carrier) × (c.add now k v ttl s ≡ some s')
        × ((later : Time)
            → now ≤ later
            → later < now + ttl
            → has_key eq k (c.items later s') ≡ true)
        × ((f : K × V → ℕ) → total f (c.items now s') ≡ f (k, v) + total f (c.items now s))
  pub total-delete :
      (now : Time) (k : K) (s : c.Carrier) (f : K × V → ℕ)
      → total f (c.items now (c.delete k s))
        ≡ total (λ kv. if eq kv.0 k then 0 else f kv) (c.items now s)
