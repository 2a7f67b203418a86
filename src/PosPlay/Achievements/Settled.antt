-- ===== src/PosPlay/Achievements/Settled.antt =====
-- Every handler of every strategy settles its event in one step.
use disturbancesmlx.Prelude.{
  ℕ, ◌+◌, String, ◌≡◌, refl, inl, inr, Bool, true, false, Option, none, some, List, [], ◌∷◌, ℤ,
  Bool-cases, Option-cases, length, ltb, ◌||◌, arith,
}
use disturbancesmlx.Clock.{Time, millisecond}
use disturbancesmlx.PosPlay.Achievements.Award.{
  EventKind, LineChoice, Direction, Achievement, award_if, of_trip, of_trip_edit, of_report,
  of_nothing, Strategy, reach_level, event_participation, visit_stations, visit_throughout, submit,
  trip_during_disturbance, guarded, reaction, challenge, any_event, existing, anywhere,
}
use disturbancesmlx.PosPlay.Achievements.Handlers.{
  level_body, event_body, stations_body, throughout_body, during_body, submit_body, GameEvent,
  trip_made, trip_edited, reported, xp_changed, handle_trip, handle_trip_edit, handle_xp, handle,
  handle_report,
}
use disturbancesmlx.PosPlay.Achievements.Model.{
  GameDb, GameOp, read_balance, count_events, read_network, update_progress, PlayerAchievement,
  find_achievement, begin_handler, has_achieved,
}
use disturbancesmlx.PosPlay.Achievements.Once.{
  IfSome, CanPay, achieved_by, Stepped, same-Stepped, award_if-Stepped, progress-Stepped,
  progress_lacks, BodyStepped, award-Stepped, Settled, guarded-Settled, same-Settled,
}
use disturbancesmlx.PosPlay.Achievements.Strategies.{
  World, own_stations, joined_texts, possible_needles, found_in, had_disturbances, visited_affected,
  is_chosen, counts_type, count_type, participations,
}
use disturbancesmlx.PosPlay.Transactions.{XpTransaction}
use disturbancesmlx.Trips.Model.{Trip}

module _ (w : World) (fails : GameOp → Bool) (new_uuid : Option ℕ) (extra_of : ℕ → String)
    (player : ℕ) (a : Achievement) (db : GameDb)
    (can : CanPay a.xp_reward new_uuid db.xp_rows) where
  -- The last step of every part.
  end_award :
      (earned : Bool) (time : Time)
      → achieved_by player a db ≡ false
      → IfSome (Stepped player a db) (award_if fails new_uuid extra_of earned player a time db)
  end_award earned time e = award_if-Stepped fails new_uuid extra_of player a earned time db can e

  level-BodyStepped :
      (level : ℕ) (t : XpTransaction) (diff : ℤ)
      → BodyStepped fails new_uuid extra_of player a
          (λ row. level_body w fails new_uuid extra_of level player a t diff)
          db
  unfolding level_body
  level-BodyStepped level t diff row e = elim (Bool-cases (fails read_balance)) [
    | inl q ↦ rw q tt
    | inr q ↦ rw q (end_award _ _ e)
  ]

  event-BodyStepped :
      (kind : EventKind) (needed : ℕ) (time : Time)
      → BodyStepped fails new_uuid extra_of player a
          (λ row. event_body w fails new_uuid extra_of kind needed player a time)
          db
  unfolding event_body
  event-BodyStepped kind needed time row e = elim (Bool-cases (fails count_events)) [
    | inl q ↦ rw q tt
    | inr q ↦ elim (Option-cases (participations kind player db.xp_rows)) [
      | inl n ↦ rw (q, n) tt
      | inr (c, n) ↦ rw (q, n) (end_award _ _ e)
    ]
  ]

  stations-BodyStepped :
      (stations : List ℕ) (one_trip : Bool) (t : Trip)
      → BodyStepped fails new_uuid extra_of player a
          (stations_body w fails new_uuid extra_of stations one_trip player a t)
          db
  unfolding stations_body
  stations-BodyStepped stations true t row e = end_award _ _ e
  stations-BodyStepped stations false t row e = elim (Bool-cases (fails update_progress)) [
    | inl q ↦ rw q tt
    | inr q ↦ rw q (
        progress-Stepped fails new_uuid extra_of player a _ db _ refl refl (
          award_if-Stepped fails new_uuid extra_of player a _ _ _ can
            (progress_lacks fails new_uuid extra_of player a _ db.achievements refl refl refl)))
  ]

  throughout-BodyStepped :
      (line : Option ℕ) (direction : Direction) (t : Trip)
      → BodyStepped fails new_uuid extra_of player a
          (λ row. throughout_body w fails new_uuid extra_of line direction player a t)
          db
  unfolding throughout_body
  throughout-BodyStepped line direction t row e = elim (Bool-cases (fails read_network)) [
    | inl q ↦ rw q tt
    | inr q ↦ rw q (
        chosen
          (elim line as (λ o. Option (List ℕ)) [ none ↦ w.all_lines | some l ↦ some (l ∷ []) ]))
  ]
    where
      chosen :
          (o : Option (List ℕ))
          → IfSome (Stepped player a db) (elim o as (λ x. Option GameDb) [
            | none ↦ none
            | some ls ↦ elim (possible_needles w direction ls) [
              | none ↦ none
              | some ns ↦
                  award_if fails new_uuid extra_of
                    (found_in w (joined_texts w (own_stations t.station_uses)) ns)
                    player
                    a
                    (t.submit_time + millisecond)
                    db
            ]
          ])
      chosen none = tt
      chosen (some ls) = elim (Option-cases (possible_needles w direction ls)) [
        | inl n ↦ rw n tt
        | inr (ns, n) ↦ rw n (end_award _ _ e)
      ]

  during-BodyStepped :
      (choice : LineChoice) (only_official : Bool) (t : Trip)
      → BodyStepped fails new_uuid extra_of player a
          (during_body w fails new_uuid extra_of choice only_official player a t)
          db
  unfolding during_body
  during-BodyStepped choice only_official t row e = elim (Bool-cases (is_chosen w choice row)) [
    | inr c ↦ rw c tt
    | inl c ↦
        elim (Option-cases (had_disturbances w choice t.start_time t.end_time only_official)) [
          | inl n ↦ rw (c, n, IfSome) tt
          | inr (false, n) ↦ rw (c, n, IfSome) (same-Stepped fails new_uuid extra_of player a db e)
          | inr (true, n) ↦ elim (Option-cases (visited_affected w choice t.station_uses)) [
            | inl v ↦ rw (c, n, v, IfSome) tt
            | inr (b, v) ↦ rw (c, n, v, IfSome) (end_award _ _ e)
          ]
        ]
  ]

  submit-BodyStepped :
      (t : Trip)
      → BodyStepped fails new_uuid extra_of player a
          (λ row. submit_body w fails new_uuid extra_of player a t)
          db
  unfolding submit_body
  submit-BodyStepped t row e = end_award _ _ e

  module _ (f : fails find_achievement ≡ false) where
    abbrev Result : GameDb → Type 0
    Result db' = Settled fails new_uuid extra_of player a db db'

    framed-Settled :
        (body : Option PlayerAchievement → GameDb → Option GameDb)
        → BodyStepped fails new_uuid extra_of player a body db
        → Result (guarded fails new_uuid extra_of body player a db)
    framed-Settled body b = guarded-Settled fails new_uuid extra_of player a body db f b

    same : Result db
    same = same-Settled fails new_uuid extra_of player a db

    handle_trip-Settled :
        (t : Trip) (s : Strategy) → Result (handle_trip w fails new_uuid extra_of t player a s db)
    unfolding handle_trip
    handle_trip-Settled t (visit_stations stations single) =
        framed-Settled _ (stations-BodyStepped stations single t)
    handle_trip-Settled t (visit_throughout line direction) =
        framed-Settled _ (throughout-BodyStepped line direction t)
    handle_trip-Settled t (submit of_trip) = framed-Settled _ (submit-BodyStepped t)
    handle_trip-Settled t (trip_during_disturbance choice only_official) =
        elim (Bool-cases (ltb (length t.station_uses) 2)) [
          | inl e ↦ rw e same
          | inr e ↦ rw e (framed-Settled _ (during-BodyStepped choice only_official t))
        ]
    handle_trip-Settled t (submit of_trip_edit) = same
    handle_trip-Settled t (submit of_report) = same
    handle_trip-Settled t (submit of_nothing) = same
    handle_trip-Settled t (reach_level l) = same
    handle_trip-Settled t (event_participation k n) = same

    handle_trip_edit-Settled :
        (t : Trip) (s : Strategy)
        → Result (handle_trip_edit w fails new_uuid extra_of t player a s db)
    unfolding handle_trip_edit
    handle_trip_edit-Settled t (submit of_trip_edit) = framed-Settled _ (submit-BodyStepped t)
    handle_trip_edit-Settled t (submit of_trip) = same
    handle_trip_edit-Settled t (submit of_report) = same
    handle_trip_edit-Settled t (submit of_nothing) = same
    handle_trip_edit-Settled t (reach_level l) = same
    handle_trip_edit-Settled t (event_participation k n) = same
    handle_trip_edit-Settled t (visit_stations stations single) = same
    handle_trip_edit-Settled t (visit_throughout line direction) = same
    handle_trip_edit-Settled t (trip_during_disturbance choice only_official) = same

    handle_report-Settled :
        (time : Time) (s : Strategy)
        → Result (handle_report w fails new_uuid extra_of time player a s db)
    unfolding handle_report
    handle_report-Settled time (submit of_report) =
        framed-Settled _ (λ row e. award-Stepped fails new_uuid extra_of player a time db can)
    handle_report-Settled time (submit of_trip) = same
    handle_report-Settled time (submit of_trip_edit) = same
    handle_report-Settled time (submit of_nothing) = same
    handle_report-Settled time (reach_level l) = same
    handle_report-Settled time (event_participation k n) = same
    handle_report-Settled time (visit_stations stations single) = same
    handle_report-Settled time (visit_throughout line direction) = same
    handle_report-Settled time (trip_during_disturbance choice only_official) = same

    handle_xp-Settled :
        (t : XpTransaction) (diff : ℤ) (s : Strategy)
        → Result (handle_xp w fails new_uuid extra_of t diff player a s db)
    unfolding handle_xp
    handle_xp-Settled t diff (reach_level level) = framed-Settled _ (level-BodyStepped level t diff)
    handle_xp-Settled t diff (event_participation kind needed) =
        elim (Bool-cases (counts_type kind t.tx_type)) [
          | inl e ↦ rw e (framed-Settled _ (event-BodyStepped kind needed t.tx_time))
          | inr e ↦ rw e same
        ]
    handle_xp-Settled t diff (visit_stations stations single) = same
    handle_xp-Settled t diff (visit_throughout line direction) = same
    handle_xp-Settled t diff (submit what) = same
    handle_xp-Settled t diff (trip_during_disturbance choice only_official) = same

    -- With an achievement query that does not fail, and a reward that the points of all can take, an
    -- event changes nothing for a player who has the achievement. For one who lacks it the event keeps
    -- the rows of all other players and achievements, and adds the reward to the balance of the
    -- player, and nothing to any other, exactly if the player has the achievement afterwards.
    pub handle-Settled :
        (event : GameEvent)
        → Settled fails new_uuid extra_of player a db
            (handle w fails new_uuid extra_of event player a db)
    unfolding handle
    handle-Settled (trip_made t) = handle_trip-Settled t a.strategy
    handle-Settled (trip_edited t) = handle_trip_edit-Settled t a.strategy
    handle-Settled (reported time) = handle_report-Settled time a.strategy
    handle-Settled (xp_changed t diff) = handle_xp-Settled t diff a.strategy

module _ (w : World) (fails : GameOp → Bool) (new_uuid : Option ℕ) (extra_of : ℕ → String)
    (player : ℕ) (a : Achievement) where
  guarded-none :
      (part : Option PlayerAchievement → GameDb → Option GameDb) (db : GameDb)
      → ((row : Option PlayerAchievement) → part row db ≡ none)
      → guarded fails new_uuid extra_of part player a db ≡ db
  unfolding guarded
  guarded-none part db h =
      elim (Bool-cases
        (fails begin_handler || has_achieved (existing fails new_uuid extra_of player a db))) [
          | inl e ↦ rw e refl
          | inr e ↦ rw (e, h (existing fails new_uuid extra_of player a db)) refl
        ]

  event_body-none :
      (kind : EventKind) (needed : ℕ) (time : Time) (db : GameDb)
      → event_body w fails new_uuid extra_of kind needed player a time db ≡ none
  unfolding event_body participations count_type
  event_body-none reaction needed time db = ground arith
  event_body-none challenge needed time db = ground arith
  event_body-none any_event needed time db = ground arith

  -- The achievement of taking part in events is never awarded, since its count is asked of the table of
  -- the players: its handler leaves the database as it was after every transaction.
  pub event_participation_never :
      (kind : EventKind) (needed : ℕ) (t : XpTransaction) (diff : ℤ) (db : GameDb)
      → handle_xp w fails new_uuid extra_of t diff player a (event_participation kind needed) db
        ≡ db
  unfolding handle_xp
  event_participation_never kind needed t diff db = elim (Bool-cases (counts_type kind t.tx_type)) [
    | inl e ↦ rw e (guarded-none _ db (λ row. event_body-none kind needed t.tx_time db))
    | inr e ↦ rw e refl
  ]

  -- An achievement for trips during a disturbance of any line of any network is never awarded to a
  -- player who has no row for it: the handler ends with the error of the query for that row, and
  -- leaves the database as it was, whatever the trip is.
  pub anywhere_never :
      (t : Trip) (only_official : Bool) (db : GameDb)
      → existing fails new_uuid extra_of player a db ≡ none
      → handle_trip w fails new_uuid extra_of t player a
          (trip_during_disturbance anywhere only_official)
          db
        ≡ db
  unfolding handle_trip guarded during_body is_chosen
  anywhere_never t only_official db e = elim (Bool-cases (ltb (length t.station_uses) 2)) [
    | inl few ↦ rw few refl
    | inr many ↦ rw (many, e) (ground arith)
  ]
