-- ===== src/PosPlay/Achievements/Handlers.antt =====
-- posplay/achievementstrategies.go: HandleTrip, HandleTripEdit, HandleDisturbanceReport and
-- HandleXPTransaction of every strategy, and the loop over the achievements that calls them.
use disturbancesmlx.Prelude.{
  ℕ, ◌+◌, String, Bool, true, false, not, ◌&&◌, Option, none, some, List, [], ◌∷◌, ℤ, ◌-ℤ◌, length,
  ltb, leb, if◌then◌else◌,
}
use disturbancesmlx.Clock.{Time, millisecond, wrap_int64}
use disturbancesmlx.PosPlay.Achievements.Award.{
  EventKind, LineChoice, Direction, of_trip, of_trip_edit, of_report, Strategy, reach_level,
  event_participation, visit_stations, visit_throughout, submit, trip_during_disturbance,
  Achievement, award, award_if, guarded,
}
use disturbancesmlx.PosPlay.Achievements.Model.{
  PlayerAchievement, GameDb, GameOp, read_balance, count_events, read_network, update_progress,
  put_row,
}
use disturbancesmlx.PosPlay.Achievements.Strategies.{
  World, member, keep_if, is_nil, own_stations, balance_between, crossed, counts_type,
  participations, left_to_visit, joined_texts, possible_needles, found_in, had_disturbances,
  visited_affected, is_chosen,
}
use disturbancesmlx.PosPlay.Transactions.{XpTransaction}
use disturbancesmlx.Trips.Model.{Trip}

-- What a handler is called with.
pub data GameEvent : Type 0 where
  trip_made trip_edited : Trip → GameEvent
  reported : Time → GameEvent
  xp_changed : XpTransaction → ℤ → GameEvent

module _ (w : World) (fails : GameOp → Bool) (new_uuid : Option ℕ) (extra_of : ℕ → String) where
  -- The award comes one millisecond after its cause.
  abbrev later_award : Bool → ℕ → Achievement → Time → GameDb → Option GameDb
  later_award earned player a time =
      award_if fails new_uuid extra_of earned player a (time + millisecond)

  unfoldable pub level_body : ℕ → ℕ → Achievement → XpTransaction → ℤ → GameDb → Option GameDb
  level_body level player a t diff db =
      if fails read_balance
      then none
      else (let cur = balance_between player (w.joined player) t.tx_time db.xp_rows in
          let prev = wrap_int64 (cur -ℤ diff) in
          later_award (crossed (w.level_of prev) (w.level_of cur) level) player a t.tx_time db)

  unfoldable pub event_body : EventKind → ℕ → ℕ → Achievement → Time → GameDb → Option GameDb
  event_body kind needed player a time db =
      if fails count_events then none else elim (participations kind player db.xp_rows) [
        | none ↦ none
        | some n ↦ later_award (leb needed n) player a time db
      ]

  unfoldable pub stations_body :
      List ℕ → Bool → ℕ → Achievement → Trip → Option PlayerAchievement → GameDb → Option GameDb
  stations_body stations single player a t row db =
      let left = left_to_visit w stations single row t.station_uses in
      let progress : PlayerAchievement = record {
        player = player;
        achievement = a.id;
        achieved = none;
        visited = keep_if (λ x. not (member x left)) stations;
      } in
      if not single && fails update_progress
      then none
      else later_award (is_nil left) player a t.submit_time
          (if single then db else record db { achievements = put_row progress db.achievements })

  unfoldable pub throughout_body :
      Option ℕ → Direction → ℕ → Achievement → Trip → GameDb → Option GameDb
  throughout_body line direction player a t db =
      if fails read_network
      then none
      else elim (elim line as (λ o. Option (List ℕ)) [
        | none ↦ w.all_lines
        | some l ↦ some (l ∷ [])
      ]) [
        | none ↦ none
        | some ls ↦ elim (possible_needles w direction ls) [
          | none ↦ none
          | some ns ↦
              later_award (found_in w (joined_texts w (own_stations t.station_uses)) ns) player a
                t.submit_time db
        ]
      ]

  unfoldable pub during_body :
      LineChoice → Bool → ℕ → Achievement → Trip → Option PlayerAchievement → GameDb → Option GameDb
  during_body choice official player a t row db =
      if not (is_chosen w choice row)
      then none
      else elim (had_disturbances w choice t.start_time t.end_time official) [
        | none ↦ none
        | some false ↦ some db
        | some true ↦ elim (visited_affected w choice t.station_uses) [
          | none ↦ none
          | some affected ↦ later_award affected player a t.submit_time db
        ]
      ]

  -- A trip, or its edit, of at least two uses.
  unfoldable pub submit_body : ℕ → Achievement → Trip → GameDb → Option GameDb
  submit_body player a t db = later_award (ltb 1 (length t.station_uses)) player a t.submit_time db

  abbrev framed :
      (Option PlayerAchievement → GameDb → Option GameDb) → ℕ → Achievement → GameDb → GameDb
  framed = guarded fails new_uuid extra_of

  unfoldable pub handle_trip : Trip → ℕ → Achievement → Strategy → GameDb → GameDb
  handle_trip t player a (visit_stations stations single) db =
      framed (stations_body stations single player a t) player a db
  handle_trip t player a (visit_throughout line direction) db =
      framed (λ row. throughout_body line direction player a t) player a db
  handle_trip t player a (submit of_trip) db = framed (λ row. submit_body player a t) player a db
  handle_trip t player a (trip_during_disturbance choice official) db =
      if ltb (length t.station_uses) 2
      then db
      else framed (during_body choice official player a t) player a db
  handle_trip t player a _ db = db

  unfoldable pub handle_trip_edit : Trip → ℕ → Achievement → Strategy → GameDb → GameDb
  handle_trip_edit t player a (submit of_trip_edit) db =
      framed (λ row. submit_body player a t) player a db
  handle_trip_edit t player a _ db = db

  unfoldable pub handle_report : Time → ℕ → Achievement → Strategy → GameDb → GameDb
  handle_report time player a (submit of_report) db =
      framed (λ row. award fails new_uuid extra_of player a time) player a db
  handle_report time player a _ db = db

  unfoldable pub handle_xp : XpTransaction → ℤ → ℕ → Achievement → Strategy → GameDb → GameDb
  handle_xp t diff player a (reach_level level) db =
      framed (λ row. level_body level player a t diff) player a db
  handle_xp t diff player a (event_participation kind needed) db =
      if counts_type kind t.tx_type
      then framed (λ row. event_body kind needed player a t.tx_time) player a db
      else db
  handle_xp t diff player a _ db = db

  unfoldable pub handle : GameEvent → ℕ → Achievement → GameDb → GameDb
  unfolding handle_trip handle_trip_edit handle_report handle_xp
  handle (trip_made t) player a db = handle_trip t player a a.strategy db
  handle (trip_edited t) player a db = handle_trip_edit t player a a.strategy db
  handle (reported time) player a db = handle_report time player a a.strategy db
  handle (xp_changed t diff) player a db = handle_xp t diff player a a.strategy db
