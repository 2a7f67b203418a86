-- ===== src/PosPlay/Achievements/Criteria.antt =====
-- What the criteria of the strategies come to: two affected stations in a row, a run through a line,
-- and the progress of visited stations.
use disturbancesmlx.Prelude.{
  ℕ, ◌≡◌, refl, subst, inl, inr, Bool, true, ◌&&◌, some, List, [], ◌∷◌, arith, Bool-cases, sym, ◌∙◌,
  ◌↔◌, false, ◌++◌, if◌then◌else◌, ap, not, ◌||◌, ◌==◌, String, Option, none,
}
use disturbancesmlx.PosPlay.Achievements.Award.{
  Direction, ascending, descending, both_ways, Achievement, award_if,
}
use disturbancesmlx.PosPlay.Achievements.Strategies.{
  World, two_in_row, contains_bytes, joined_texts, reversed, needles, found_in, is_prefix, member,
  keep_if, own_stations, left_to_visit, is_open,
}
use disturbancesmlx.Trips.Model.{StationUse, Trip}
use disturbancesmlx.Disturbances.Model.{valid}
use disturbancesmlx.Clock.{Time}
use disturbancesmlx.PosPlay.Achievements.Handlers.{stations_body}
use disturbancesmlx.PosPlay.Achievements.Model.{
  PlayerAchievement, GameDb, GameOp, update_progress, find_row, has_achieved,
}
use disturbancesmlx.PosPlay.Achievements.Once.{IfSome, achieved_by, pay_row, award_achieves}

-- Two uses that follow each other are of affected stations.
pub data TwoAffected (affected : ℕ → Bool) : List StationUse → Type 0 where
  here :
      {u v : StationUse} {us : List StationUse}
      → affected u.use_station ≡ true
      → affected v.use_station ≡ true
      → TwoAffected affected (u ∷ v ∷ us)
  there :
      {u : StationUse} {us : List StationUse}
      → TwoAffected affected us
      → TwoAffected affected (u ∷ us)

module _ (w : World) (looked_at : ℕ → Option Bool) (affected : ℕ → Bool)
    (known : (s : ℕ) → looked_at s ≡ some (affected s)) where
  two_step :
      (prev : Bool) (u : StationUse) (us : List StationUse)
      → two_in_row w looked_at prev (u ∷ us) ≡ (
          if affected u.use_station && prev
          then some true
          else two_in_row w looked_at (affected u.use_station) us)
  unfolding two_in_row
  two_step prev u us = rw (known u.use_station, two_in_row) refl

  found_two :
      (prev : StationUse) (us : List StationUse)
      → two_in_row w looked_at (affected prev.use_station) us ≡ some true
      → TwoAffected affected (prev ∷ us)
  unfolding two_in_row
  found_two prev [] h = cc
  found_two prev (u ∷ us) h =
      elim (Bool-cases (affected u.use_station && affected prev.use_station)) [
        | inl e ↦ here (ground arith) (ground arith)
        | inr e ↦
            there
              (found_two u us (sym (two_step (affected prev.use_station) u us ∙ (rw e refl)) ∙ h))
      ]

  any_prev :
      (prev : Bool) (us : List StationUse)
      → TwoAffected affected us
      → two_in_row w looked_at prev us ≡ some true
  unfolding two_in_row
  any_prev prev [] x = elim x [ ]
  any_prev prev (u ∷ v ∷ us) (here a b) =
      two_step prev u (v ∷ us) ∙ elim (Bool-cases (affected u.use_station && prev)) [
        | inl e ↦ rw e refl
        | inr e ↦ rw e (two_step (affected u.use_station) v us ∙ (rw (a, b) refl))
      ]
  any_prev prev (u ∷ us) (there t) =
      two_step prev u us ∙ elim (Bool-cases (affected u.use_station && prev)) [
        | inl e ↦ rw e refl
        | inr e ↦ rw e (any_prev (affected u.use_station) us t)
      ]

  first_two :
      (us : List StationUse) → two_in_row w looked_at false us ≡ some true → TwoAffected affected us
  unfolding two_in_row
  first_two [] h = cc
  first_two (u ∷ us) h = found_two u us (sym (two_step false u us ∙ (ground arith)) ∙ h)

  -- If the queries of the stations do not fail, the loop over the uses of a trip finds what it looks for
  -- exactly if two uses that follow each other are of affected stations.
  pub two_in_row-TwoAffected :
      (us : List StationUse)
      → (two_in_row w looked_at false us ≡ some true) ↔ TwoAffected affected us
  two_in_row-TwoAffected us = (first_two us, any_prev false us)

-- A trip through the open stations of a line.
is_prefix-append : (xs ys : List ℕ) → is_prefix xs (xs ++ ys) ≡ true
unfolding is_prefix
is_prefix-append [] ys = refl
is_prefix-append (x ∷ xs) ys = ground (arith, is_prefix-append xs ys)

prefix_contains :
    (needle hay : List ℕ) → is_prefix needle hay ≡ true → contains_bytes needle hay ≡ true
unfolding contains_bytes
prefix_contains needle [] e = e
prefix_contains needle (h ∷ hs) e = rw e refl

contains_block :
    (before needle after : List ℕ) → contains_bytes needle (before ++ (needle ++ after)) ≡ true
unfolding contains_bytes
contains_block [] needle after = prefix_contains needle _ (is_prefix-append needle after)
contains_block (b ∷ bs) needle after = ground (arith, contains_block bs needle after)

append_assoc : (xs ys zs : List ℕ) → (xs ++ ys) ++ zs ≡ xs ++ (ys ++ zs)
append_assoc [] ys zs = refl
append_assoc (x ∷ xs) ys zs = ap (λ l. x ∷ l) (append_assoc xs ys zs)

module _ (w : World) where
  joined_texts-append :
      (xs ys : List ℕ) → joined_texts w (xs ++ ys) ≡ joined_texts w xs ++ joined_texts w ys
  unfolding joined_texts
  joined_texts-append [] ys = refl
  joined_texts-append (x ∷ xs) ys =
      rw (joined_texts-append xs ys)
        (sym (append_assoc (w.text_of x) (b'|' ∷ joined_texts w xs) (joined_texts w ys)))

  run_found :
      (before run after : List ℕ)
      → contains_bytes (joined_texts w run) (joined_texts w (before ++ (run ++ after))) ≡ true
  run_found before run after =
      rw (joined_texts-append before (run ++ after), joined_texts-append run after)
        (contains_block (joined_texts w before) (joined_texts w run) (joined_texts w after))

  -- The achievement for a direction finds a trip that goes through the open stations in their order,
  -- or against it.
  abbrev pub FoundForth : Direction → List ℕ → List ℕ → List ℕ → Type 0
  FoundForth direction before opened after =
      found_in w (joined_texts w (before ++ (opened ++ after))) (needles w direction opened) ≡ true

  abbrev pub FoundBack : Direction → List ℕ → List ℕ → List ℕ → Type 0
  FoundBack direction before opened after =
      found_in w (joined_texts w (before ++ (reversed w [] opened ++ after)))
        (needles w direction opened)
      ≡ true

  -- A trip whose own stations go through the open stations of a line one after the other, in the
  -- order of the line or against it, is found by an achievement for both ways, and also by one for
  -- the ascending way alone. The one for the descending way finds the trip against the order.
  pub found_in-needles :
      (before opened after : List ℕ)
      → (FoundForth both_ways before opened after × FoundForth ascending before opened after)
        × (FoundBack both_ways before opened after
            × FoundBack ascending before opened after
            × FoundBack descending before opened after)
  unfolding found_in needles
  found_in-needles before opened after =
      let forth = run_found before opened after in
      let back = run_found before (reversed w [] opened) after in
      ((ground arith, ground arith), (ground arith, ground arith, ground arith))

-- The progress of visited stations.
kept_visited :
    (x : ℕ) (stations left : List ℕ)
    → member x stations ≡ true
    → member x left ≡ false
    → member x (keep_if (λ y. not (member y left)) stations) ≡ true
kept_visited x [] left h n = cc
kept_visited x (s ∷ ss) left h n = elim (Bool-cases (s == x)) [
  | inl e ↦ same_name (ground arith)
  | inr e ↦
      let rest = kept_visited x ss left (ground arith) n in
      elim (Bool-cases (member s left)) [ inl m ↦ rw m rest | inr m ↦ rw m (ground arith) ]
]
  where
    same_name : s ≡ x → member x (keep_if (λ y. not (member y left)) (s ∷ ss)) ≡ true
    same_name e = rw (e, n) (ground arith)

keep_if_fails : (p : ℕ → Bool) (x : ℕ) (xs : List ℕ) → p x ≡ false → member x (keep_if p xs) ≡ false
keep_if_fails p x [] e = refl
keep_if_fails p x (y ∷ ys) e = elim (Bool-cases (p y)) [
  | inl q ↦ rw q (rw (keep_if_fails p x ys e) (other q))
  | inr q ↦ rw q (keep_if_fails p x ys e)
]
  where
    other : p y ≡ true → (y == x || false) ≡ false
    other q = elim (Bool-cases (y == x)) [
      | inl e' ↦ absurd (differ (subst (λ z. p z ≡ true) (eq_of e') q))
      | inr e' ↦ rw e' refl
    ]
      where
        eq_of : (y == x) ≡ true → y ≡ x
        eq_of h = ground arith

        differ : p x ≡ true → ⊥
        differ h = cc

keep_if_less :
    (p : ℕ → Bool) (x : ℕ) (xs : List ℕ) → member x xs ≡ false → member x (keep_if p xs) ≡ false
keep_if_less p x [] e = refl
keep_if_less p x (y ∷ ys) e = ground (arith, keep_if_less p x ys)

-- The station is noted as visited, or the achievement is there.
abbrev pub has_visited : ℕ → Option PlayerAchievement → Bool
has_visited x none = false
has_visited x (some r) = valid r.achieved || member x r.visited

achieved-has_visited :
    (x : ℕ) (o : Option PlayerAchievement) → has_achieved o ≡ true → has_visited x o ≡ true
achieved-has_visited x none e = cc
achieved-has_visited x (some r) e = rw e refl

module _ (w : World) (fails : GameOp → Bool) (new_uuid : Option ℕ) (extra_of : ℕ → String)
    (player : ℕ) (a : Achievement) (stations : List ℕ) (t : Trip) (x : ℕ)
    (r : PlayerAchievement) where
  not_left :
      (member x r.visited || member x (own_stations t.station_uses)) ≡ true
      → member x (left_to_visit w stations false (some r) t.station_uses) ≡ false
  unfolding left_to_visit
  not_left h = elim (Bool-cases (member x (own_stations t.station_uses))) [
    | inl o ↦ keep_if_fails (λ y. not (member y (own_stations t.station_uses))) x _ (rw o refl)
    | inr o ↦
        keep_if_less (λ y. not (member y (own_stations t.station_uses))) x _
          (keep_if_fails (λ y. is_open w y && not (member y r.visited)) x stations
            (rw (seen o) (ground arith)))
  ]
    where
      seen : member x (own_stations t.station_uses) ≡ false → member x r.visited ≡ true
      seen o = ground arith

  HasAfter : GameDb → Type 0
  HasAfter db = has_visited x (find_row player a.id db.achievements) ≡ true

  award_has :
      (o : Option GameDb) → IfSome (λ d. achieved_by player a d ≡ true) o → IfSome HasAfter o
  unfolding HasAfter
  award_has none h = tt
  award_has (some d) h = achieved-has_visited x (find_row player a.id d.achievements) h

  if_has :
      (earned : Bool) (time : Time) (db : GameDb)
      → HasAfter db
      → IfSome HasAfter (award_if fails new_uuid extra_of earned player a time db)
  unfolding award_if
  if_has true time db h = award_has _ (award_achieves fails new_uuid extra_of player a time db)
  if_has false time db h = h

  -- The progress of a player who has a row: a station of the achievement that was noted as visited, or
  -- that the trip visits and that was not added by hand, is noted afterwards, or the player has the
  -- achievement, whenever the handler's part does not fail.
  pub stations_body-keeps :
      (db : GameDb)
      → member x stations ≡ true
      → (member x r.visited || member x (own_stations t.station_uses)) ≡ true
      → IfSome
          (λ d. has_visited x (find_row player a.id d.achievements) ≡ true)
          (stations_body w fails new_uuid extra_of stations false player a t (some r) db)
  unfolding stations_body HasAfter
  stations_body-keeps db h seen = elim (Bool-cases (fails update_progress)) [
    | inl q ↦ rw q tt
    | inr q ↦ rw q (
        if_has _ _ _ (
          ap (has_visited x) (pay_row fails new_uuid extra_of player a _ db.achievements refl refl)
          ∙ kept_visited x stations _ h (not_left seen)))
  ]
