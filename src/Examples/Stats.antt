-- ===== src/Examples/Stats.antt =====
-- A user who changes from one line to another.
use disturbancesmlx.Prelude.{
  ℕ, ◌≡◌, refl, ◌≢◌, false, not, ◌&&◌, ◌||◌, none, some, List, [], ◌∷◌, arith, ◌==◌, if◌then◌else◌,
}
use disturbancesmlx.Reports.Cache.{Cache, has_key}
use disturbancesmlx.Stats.Model.{
  IsSetCache, StatsHandler, is_line, is_network, user_in_line, user_in_network, register_activity,
}
use disturbancesmlx.Stats.Presence.{register_activity_lem}

abbrev without : ℕ → List (ℕ × ℕ) → List (ℕ × ℕ)
without k [] = []
without k ((j, v) ∷ xs) = if j == k then without k xs else (j, v) ∷ without k xs

abbrev plain_cache : Cache ℕ ℕ
plain_cache = record {
  Carrier = List (ℕ × ℕ);
  items = λ now s. s;
  add = λ now k v ttl s. if has_key ◌==◌ k s then none else some ((k, v) ∷ s);
  set_item = λ now k v ttl s. (k, v) ∷ s;
  delete = λ k s. without k s;
}

has_key-without :
    (k : ℕ) (s : List (ℕ × ℕ)) (j : ℕ)
    → has_key ◌==◌ j (without k s) ≡ (not (k == j) && has_key ◌==◌ j s)
has_key-without k [] j = ground arith
has_key-without k ((i, v) ∷ xs) j = ground (arith, has_key-without k xs j)

plain_cache-IsSetCache : IsSetCache plain_cache
plain_cache-IsSetCache = record {
  has-set_item = λ now k v ttl s j p. refl;
  has-delete = λ now k s j. has_key-without k s j;
}

-- User 5 is in line 1 of network 9.
abbrev on_first : StatsHandler (List (ℕ × ℕ))
on_first = record {
  per_network = λ n. if n == 9 then (5, 1) ∷ [] else [];
  per_line = λ l. if l == 1 then (5, 1) ∷ [] else [];
}

abbrev changed : StatsHandler (List (ℕ × ℕ))
changed = register_activity plain_cache 1000 ((2, 9) ∷ []) 5 false on_first

register_activity_lem_example :
    ((l : ℕ) → user_in_line plain_cache 1000 l 5 changed ≡ is_line l ((2, 9) ∷ []))
    × ((n : ℕ)
        → user_in_network plain_cache 1000 n 5 changed
          ≡ (is_network n ((2, 9) ∷ []) || user_in_network plain_cache 1000 n 5 on_first))
    × ((other : ℕ)
        → other ≢ 5
        → ((l : ℕ)
            → user_in_line plain_cache 1000 l other changed
              ≡ user_in_line plain_cache 1000 l other on_first)
          × ((n : ℕ)
              → user_in_network plain_cache 1000 n other changed
                ≡ user_in_network plain_cache 1000 n other on_first))
register_activity_lem_example =
    register_activity_lem plain_cache plain_cache-IsSetCache 1000 ((2, 9) ∷ []) 5 false on_first
