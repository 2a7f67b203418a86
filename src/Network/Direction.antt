-- ===== src/Network/Direction.antt =====
-- types/line.go: the terminus that a connection leads to.
use disturbancesmlx.Prelude.{
  ℕ, suc, ◌+◌, ◌-◌, Bool, false, ◌&&◌, Option, none, some, List, [], ◌∷◌, length, get_elem?, leb,
  ◌==◌, if◌then◌else◌,
}

-- stations[i].ID == x, where i is in range.
abbrev pub is_at : List ℕ → ℕ → ℕ → Bool
is_at xs i x = elim (get_elem? xs i) [ none ↦ false | some y ↦ y == x ]

module _ (closed : ℕ → Option Bool) where
  -- closed, err := stations[i].Closed(tx); err == nil && closed
  abbrev pub closed_at : List ℕ → ℕ → Bool
  closed_at xs i = elim (get_elem? xs i) [
    | none ↦ false
    | some s ↦ elim (closed s) [ none ↦ false | some c ↦ c ]
  ]

  abbrev pub last_station : List ℕ → Option ℕ
  last_station xs = get_elem? xs (length xs - 1)

  -- The loop over the stations, from the index `i`.
  unfoldable pub direction_from : List ℕ → ℕ → ℕ → ℕ → List ℕ → Option ℕ
  direction_from xs source target i [] = none
  direction_from xs source target i (s ∷ ss) =
      let rest = direction_from xs source target (suc i) ss in
      if s == source && is_at xs (i + 1) target
      then last_station xs
      else if s == source && (is_at xs (i + 2) target && closed_at xs (i + 1))
      then last_station xs
      else if s == source && (leb 1 i && is_at xs (i - 1) target)
      then get_elem? xs 0
      else if s == source && (leb 2 i && is_at xs (i - 2) target && closed_at xs (i - 1))
      then get_elem? xs 0
      else rest

  -- line.GetDirectionForConnection(node, connection), where `none` of the stations is an error of the
  -- database and `none` of the result is any error.
  unfoldable pub get_direction_for_connection : Option (List ℕ) → ℕ → ℕ → Option ℕ
  get_direction_for_connection none source target = none
  get_direction_for_connection (some xs) source target = direction_from xs source target 0 xs
