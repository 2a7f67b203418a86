-- ===== src/Stats/Presence.antt =====
-- Where a user is after a report of where the user is.
use disturbancesmlx.Prelude.{
  ℕ, ◌<◌, ◌≡◌, refl, ◌&&◌, ◌||◌, List, [], ◌∷◌, ◌==◌, ap, ◌∙◌, ◌≢◌, inl, inr, Bool, not, arith,
  Bool-cases,
}
use disturbancesmlx.Clock.{Time}
use disturbancesmlx.Reports.Cache.{Cache, has_key}
use disturbancesmlx.Stats.Model.{
  IsSetCache, StatsHandler, LineIn, is_line, user_in_line, participate, store, is_network,
  user_in_network, expected_duration, register_activity,
}

module _ (c : Cache ℕ ℕ) (laws : IsSetCache c) (now : Time) where
  has-store :
      (ttl user : ℕ) (all : ℕ → c.Carrier) (i j other : ℕ)
      → 0 < ttl
      → has_key ◌==◌ other (c.items now (store i (c.set_item now user 1 ttl (all i)) all j))
        ≡ ((i == j && user == other) || has_key ◌==◌ other (c.items now (all j)))
  has-store ttl user all i j other p = elim (Bool-cases (i == j)) [
    | inl q ↦
        let e : i ≡ j = ground arith in rw (q, e) (laws.has-set_item now user 1 ttl (all j) other p)
    | inr q ↦ rw q refl
  ]

  participate-line :
      (ttl user : ℕ) (xs : List LineIn) (h : StatsHandler c.Carrier) (l other : ℕ)
      → 0 < ttl
      → user_in_line c now l other (participate c now ttl user xs h)
        ≡ ((is_line l xs && user == other) || user_in_line c now l other h)
  unfolding participate
  participate-line ttl user [] h l other p = refl
  participate-line ttl user (x ∷ xs) h l other p =
      participate-line ttl user xs _ l other p
      ∙ ap (λ b. (is_line l xs && user == other) || b) (has-store ttl user h.per_line x.0 l other p)
      ∙ ground arith

  participate-network :
      (ttl user : ℕ) (xs : List LineIn) (h : StatsHandler c.Carrier) (n other : ℕ)
      → 0 < ttl
      → user_in_network c now n other (participate c now ttl user xs h)
        ≡ ((is_network n xs && user == other) || user_in_network c now n other h)
  unfolding participate
  participate-network ttl user [] h n other p = refl
  participate-network ttl user (x ∷ xs) h n other p =
      participate-network ttl user xs _ n other p
      ∙ ap (λ b. (is_network n xs && user == other) || b)
          (has-store ttl user h.per_network x.1 n other p)
      ∙ ground arith

  -- After a report the user is in the reported lines and in no other line, and in the networks of
  -- these lines besides those of before; every other user is where he was.
  pub register_activity_lem :
      (lines : List LineIn) (user : ℕ) (just_entered : Bool) (h : StatsHandler c.Carrier)
      → let h' = register_activity c now lines user just_entered h in
        ((l : ℕ) → user_in_line c now l user h' ≡ is_line l lines)
        × ((n : ℕ)
            → user_in_network c now n user h'
              ≡ (is_network n lines || user_in_network c now n user h))
        × ((other : ℕ)
            → other ≢ user
            → ((l : ℕ) → user_in_line c now l other h' ≡ user_in_line c now l other h)
              × ((n : ℕ) → user_in_network c now n other h' ≡ user_in_network c now n other h))
  unfolding register_activity
  register_activity_lem lines user just_entered h =
      let ttl = expected_duration c lines just_entered in
      let lasting : 0 < ttl = ground arith in
      let after = participate c now ttl user lines h in
      (
        λ l. elim (Bool-cases (is_line l lines)) [
          | inl q ↦ rw q (participate-line ttl user lines h l user lasting ∙ rw q (ground arith))
          | inr q ↦ rw q (laws.has-delete now user (after.per_line l) user ∙ ground arith)
        ],
        λ n. participate-network ttl user lines h n user lasting ∙ ground arith,
        λ other d. (
          λ l. elim (Bool-cases (is_line l lines)) [
            | inl q ↦ rw q (participate-line ttl user lines h l other lasting ∙ ground arith)
            | inr q ↦ rw q (
                laws.has-delete now user (after.per_line l) other
                ∙ ap (λ b. not (user == other) && b)
                    (participate-line ttl user lines h l other lasting)
                ∙ ground arith)
          ],
          λ n. participate-network ttl user lines h n other lasting ∙ ground arith,
        ),
      )
