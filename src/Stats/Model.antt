-- ===== src/Stats/Model.antt =====
-- compute/stats.go: the users that were lately in each line and in each network.
use disturbancesmlx.Prelude.{
  ℕ, ◌*◌, ◌<◌, ◌≡◌, Bool, false, not, ◌&&◌, ◌||◌, List, [], ◌∷◌, length, ltb, ◌==◌, if◌then◌else◌,
}
use disturbancesmlx.Clock.{Time, minute}
use disturbancesmlx.Reports.Cache.{Cache, has_key}

-- What the documentation of go-cache promises of Set, with a time to live that is not over, and of
-- Delete.
pub record IsSetCache {V : Type 0} (c : Cache ℕ V) : Type 0 where
  pub has-set_item :
      (now : Time) (k : ℕ) (v : V) (ttl : ℕ) (s : c.Carrier) (j : ℕ)
      → 0 < ttl
      → has_key ◌==◌ j (c.items now (c.set_item now k v ttl s))
        ≡ (k == j || has_key ◌==◌ j (c.items now s))
  pub has-delete :
      (now : Time) (k : ℕ) (s : c.Carrier) (j : ℕ)
      → has_key ◌==◌ j (c.items now (c.delete k s))
        ≡ (not (k == j) && has_key ◌==◌ j (c.items now s))

-- StatsHandler: a map that has no cache for a line answers with an empty one, and keeps it.
pub record StatsHandler (S : Type 0) : Type 0 where
  pub per_network : ℕ → S
  pub per_line : ℕ → S

abbrev pub store {ℓ} : {S : Type ℓ} → ℕ → S → (ℕ → S) → ℕ → S
store i s all j = if i == j then s else all j

-- A line with its network.
abbrev pub LineIn : Type 0
LineIn = ℕ × ℕ

abbrev pub is_line : ℕ → List LineIn → Bool
is_line l [] = false
is_line l (x ∷ xs) = x.0 == l || is_line l xs

abbrev pub is_network : ℕ → List LineIn → Bool
is_network n [] = false
is_network n (x ∷ xs) = x.1 == n || is_network n xs

module _ (c : Cache ℕ ℕ) where
  -- h.UserInLine(line, user), h.UserInNetwork(network, user)
  abbrev pub user_in_line : Time → ℕ → ℕ → StatsHandler c.Carrier → Bool
  user_in_line now l user h = has_key ◌==◌ user (c.items now (h.per_line l))

  abbrev pub user_in_network : Time → ℕ → ℕ → StatsHandler c.Carrier → Bool
  user_in_network now n user h = has_key ◌==◌ user (c.items now (h.per_network n))

  -- expectedDuration
  abbrev pub expected_duration : List LineIn → Bool → ℕ
  expected_duration lines just_entered =
      if just_entered || ltb 1 (length lines) then 8 * minute else 4 * minute

  -- The loop that adds the participation in the lines.
  unfoldable pub participate :
      Time → ℕ → ℕ → List LineIn → StatsHandler c.Carrier → StatsHandler c.Carrier
  participate now ttl user [] h = h
  participate now ttl user (x ∷ xs) h = participate now ttl user xs (record {
    per_line = store x.0 (c.set_item now user 1 ttl (h.per_line x.0)) h.per_line;
    per_network = store x.1 (c.set_item now user 1 ttl (h.per_network x.1)) h.per_network;
  })

  -- h.RegisterActivity(lines, user, justEntered)
  unfoldable pub register_activity :
      Time → List LineIn → ℕ → Bool → StatsHandler c.Carrier → StatsHandler c.Carrier
  register_activity now lines user just_entered h =
      let h' = participate now (expected_duration lines just_entered) user lines h in
      record h' {
        per_line = λ l. if is_line l lines then h'.per_line l else c.delete user (h'.per_line l);
      }
