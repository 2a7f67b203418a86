-- ===== src/Positions/Store.antt =====
-- The libraries that VehicleETAHandler keeps its data in, as interfaces: the expiring cache
-- (github.com/patrickmn/go-cache) by key, and the moving average
-- (github.com/RobinUS2/golang-moving-average).
use disturbancesmlx.Prelude.{ℕ, ◌+◌, ◌≤◌, ◌<◌, ◌≡◌, Bool, true, false, Option, some, pos}
use disturbancesmlx.Clock.{Time, Duration}

pub record Store (K V : Type 0) : Type 1 where
  pub Carrier : Type 0
  -- Get(k) at a time
  pub get : Time → K → Carrier → Option V
  -- Set(k, x, d) at a time
  pub put : Time → K → V → Duration → Carrier → Carrier

-- What its documentation promises of an item with a duration: it is there until it expires, and no other
-- item changes.
pub record IsStore {K V : Type 0} (eq : K → K → Bool) (c : Store K V) : Type 0 where
  pub get-put_same :
      (t now : Time) (j k : K) (v : V) (ttl : ℕ) (s : c.Carrier)
      → eq j k ≡ true
      → t ≤ now
      → now < t + ttl
      → c.get now j (c.put t k v (pos ttl) s) ≡ some v
  pub get-put_other :
      (t now : Time) (j k : K) (v : V) (ttl : Duration) (s : c.Carrier)
      → eq j k ≡ false
      → c.get now j (c.put t k v ttl s) ≡ c.get now j s

pub record MovingAverage : Type 1 where
  pub Window : Type 0
  -- New(10)
  pub empty_window : Window
  pub add_value : Duration → Window → Window
  pub count_values : Window → ℕ
  -- Min(), which can be an error
  pub min_value : Window → Option Duration
