-- ===== src/Examples/Achievements.antt =====
-- Awards for a trip through a line of three stations.
use disturbancesmlx.Prelude.{
  ℕ, ◌+◌, ◌≡◌, refl, ◌↔◌, Bool, true, false, none, some, [], ◌∷◌, arith, pos, ltb, ◌==◌,
}
use disturbancesmlx.PosPlay.Achievements.Award.{
  reaction, one_network, anywhere, trip_during_disturbance, existing, ascending, descending,
  both_ways, event_participation, visit_stations, visit_throughout, Achievement, pay, award,
  award_if, guarded,
}
use disturbancesmlx.PosPlay.Achievements.Criteria.{
  TwoAffected, two_in_row-TwoAffected, found_in-needles, FoundForth, FoundBack,
}
use disturbancesmlx.PosPlay.Achievements.Handlers.{
  trip_made, stations_body, throughout_body, during_body, handle_trip, handle_xp, handle,
}
use disturbancesmlx.PosPlay.Achievements.Model.{
  PlayerAchievement, GameDb, GameOp, find_row, put_row,
}
use disturbancesmlx.PosPlay.Achievements.Once.{CanPay, achieved_by, Settled}
use disturbancesmlx.PosPlay.Achievements.Settled.{
  handle-Settled, event_participation_never, anywhere_never,
}
use disturbancesmlx.PosPlay.Achievements.Strategies.{
  World, contains_bytes, left_to_visit, joined_texts, open_stations, needles, possible_needles,
  found_in, in_network, two_in_row, is_prefix, is_chosen, had_disturbances, any_disturbed,
}
use disturbancesmlx.PosPlay.Transactions.{
  last_transaction, blank, base_transaction, reward_transaction, do_xp_transaction,
}
use disturbancesmlx.Trips.Model.{
  StationUseType, network_entry, network_exit, interchange, StationUse, Trip,
}

abbrev sample : World
sample = record {
  level_of = λ z. z;
  joined = λ p. 0;
  text_of = λ s. (48 + s) ∷ [];
  station_closed = λ s. some false;
  all_lines = some (1 ∷ []);
  line_stations = λ l. some (1 ∷ 2 ∷ 3 ∷ []);
  network_lines = λ n. some (1 ∷ []);
  line_known = λ l. l == 1;
  network_known = λ n. n == 1;
  lines_of = λ s. some (1 ∷ []);
  network_of = λ s. 1;
  disturbed = λ l start end official. some (ltb start 500);
}

abbrev through : Trip
through = record {
  trip_id = 1;
  start_time = 0;
  end_time = 600;
  submitter = 7;
  submit_time = 700;
  edit_time = 0;
  edited = false;
  user_confirmed = false;
  station_uses = stop 3 network_entry ∷ stop 2 interchange ∷ stop 1 network_exit ∷ [];
}
  where
    stop : ℕ → StationUseType → StationUse
    stop s t = record {
      use_station = s;
      entry_time = 0;
      leave_time = 600;
      use_type = t;
      manual = false;
      source_line = none;
      target_line = none;
    }

abbrev whole_line : Achievement
whole_line = record { id = 5; xp_reward = pos 30; strategy = visit_throughout (some 1) ascending }

abbrev nothing_yet : GameDb
nothing_yet = record { achievements = []; xp_rows = [] }

abbrev no_failure : GameOp → Bool
no_failure op = false

can_pay : CanPay (pos 30) (some 9) []
can_pay = record { small_reward = omega arith; small_rows = tt; keyed = tt; fresh = λ id e. tt }

handle-Settled_example :
    Settled no_failure
      (some 9)
      (λ id. "")
      42
      whole_line
      nothing_yet
      (handle sample no_failure (some 9) (λ id. "") (trip_made through) 42 whole_line nothing_yet)
handle-Settled_example =
    handle-Settled sample no_failure (some 9) (λ id. "") 42 whole_line nothing_yet can_pay refl
      (trip_made through)

-- The trip against the order of the line earns the achievement for its order.
awarded :
    achieved_by 42 whole_line
      (handle sample no_failure (some 9) (λ id. "") (trip_made through) 42 whole_line nothing_yet)
    ≡ true
unfolding handle handle_trip throughout_body guarded award_if award pay found_in possible_needles
    needles joined_texts contains_bytes is_prefix open_stations find_row put_row do_xp_transaction
    reward_transaction base_transaction last_transaction blank
awarded = refl

event_participation_never_example :
    handle_xp sample no_failure
      (some 9)
      (λ id. "")
      (record {
        tx_id = 1;
        discord_id = 42;
        tx_time = 5;
        value = pos 1;
        tx_type = "DISCORD_REACTION_EVENT";
        extra = "";
      })
      (pos 1)
      42
      whole_line
      (event_participation reaction 1)
      nothing_yet
    ≡ nothing_yet
event_participation_never_example =
    event_participation_never sample no_failure (some 9) (λ id. "") 42 whole_line reaction 1
      (record {
        tx_id = 1;
        discord_id = 42;
        tx_time = 5;
        value = pos 1;
        tx_type = "DISCORD_REACTION_EVENT";
        extra = "";
      })
      (pos 1) nothing_yet

affected_all : (s : ℕ) → in_network sample 1 s ≡ some (1 == 1)
unfolding in_network
affected_all s = refl

two_in_row-TwoAffected_example :
    (two_in_row sample (in_network sample 1) false through.station_uses ≡ some true)
    ↔ TwoAffected (λ s. 1 == 1) through.station_uses
two_in_row-TwoAffected_example =
    two_in_row-TwoAffected sample (in_network sample 1) (λ s. 1 == 1) affected_all
      through.station_uses

found_in-needles_example :
    (FoundForth sample both_ways (9 ∷ []) (1 ∷ 2 ∷ []) []
      × FoundForth sample ascending (9 ∷ []) (1 ∷ 2 ∷ []) [])
    × (FoundBack sample both_ways (9 ∷ []) (1 ∷ 2 ∷ []) []
        × FoundBack sample ascending (9 ∷ []) (1 ∷ 2 ∷ []) []
        × FoundBack sample descending (9 ∷ []) (1 ∷ 2 ∷ []) [])
found_in-needles_example = found_in-needles sample (9 ∷ []) (1 ∷ 2 ∷ []) []

-- A trip of the network during a disturbance earns the achievement for its network.
abbrev networked : Achievement
networked = record {
  id = 7;
  xp_reward = pos 30;
  strategy = trip_during_disturbance (one_network 1) false;
}

rode_through :
    achieved_by 42 networked
      (handle sample no_failure (some 9) (λ id. "") (trip_made through) 42 networked nothing_yet)
    ≡ true
unfolding handle handle_trip during_body guarded award_if award pay is_chosen had_disturbances
    any_disturbed two_in_row in_network find_row put_row do_xp_transaction reward_transaction
    base_transaction last_transaction blank
rode_through = refl

none_yet : existing no_failure (some 9) (λ id. "") 42 networked nothing_yet ≡ none
unfolding find_row
none_yet = refl

anywhere_never_example :
    handle_trip sample no_failure
      (some 9)
      (λ id. "")
      through
      42
      networked
      (trip_during_disturbance anywhere false)
      nothing_yet
    ≡ nothing_yet
anywhere_never_example =
    anywhere_never sample no_failure (some 9) (λ id. "") 42 networked through false nothing_yet
      none_yet

abbrev seen_one : PlayerAchievement
seen_one = record { player = 42; achievement = 6; achieved = none; visited = 4 ∷ [] }

abbrev four_stations : Achievement
four_stations = record {
  id = 6;
  xp_reward = pos 0;
  strategy = visit_stations (1 ∷ 2 ∷ 4 ∷ 5 ∷ []) false;
}

noted :
    stations_body sample no_failure
      (some 9)
      (λ id. "")
      (1 ∷ 2 ∷ 4 ∷ 5 ∷ [])
      false
      42
      four_stations
      through
      (some seen_one)
      nothing_yet
    ≡ some
        (record { achievements = record seen_one { visited = 1 ∷ 2 ∷ 4 ∷ [] } ∷ []; xp_rows = [] })
unfolding stations_body left_to_visit award_if put_row
noted = refl
