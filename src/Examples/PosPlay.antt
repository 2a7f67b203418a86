-- ===== src/Examples/PosPlay.antt =====
-- A reward that is merged into an earlier one of the same week.
use disturbancesmlx.Prelude.{
  ◌≡◌, refl, Bool, true, false, none, some, [], ◌∷◌, arith, pos, ◌+ℤ◌, upsert, ℕ, ◌+◌, ◌*◌, ◌≤◌,
  ◌<◌, List, length, Has,
}
use disturbancesmlx.PosPlay.Transactions.{
  XpTransaction, XpOp, last_transaction, blank, base_transaction, reward_transaction,
  do_xp_transaction,
}
use disturbancesmlx.PosPlay.Credit.{XpOutcome, do_xp_transaction_lem}
use disturbancesmlx.PosPlay.Reward.{
  visit_all, stations_of, interchanges_of, on_peak, compute_reward,
}
use disturbancesmlx.PosPlay.Worth.{Lists, compute_reward_lem}
use disturbancesmlx.Trips.Model.{
  StationUseType, network_entry, network_exit, interchange, StationUse, Trip,
}

abbrev earlier : XpTransaction
earlier = record {
  tx_id = 1;
  discord_id = 42;
  tx_time = 2000;
  value = pos 10;
  tx_type = "QUIZ_REWARD";
  extra = "";
}

abbrev working : XpOp → Bool
working op = false

do_xp_transaction_lem_example :
    let (rows', notice) =
      do_xp_transaction working 42 3000
        (pos 5)
        "QUIZ_REWARD"
        none
        true
        1000
        (some 2)
        (earlier ∷ []) in
    XpOutcome 42 (pos 5) 1000 (earlier ∷ []) rows' notice
do_xp_transaction_lem_example =
    do_xp_transaction_lem working 42 3000 (pos 5) "QUIZ_REWARD" none true 1000 (some 2)
      (earlier ∷ []) (omega arith) (omega arith, tt) (tt, tt) (λ id e. (λ q. ground arith, tt))

merged :
    do_xp_transaction working 42 3000 (pos 5) "QUIZ_REWARD" none true 1000 (some 2) (earlier ∷ [])
    ≡ (
      record earlier { tx_time = 3000; value = pos 15 } ∷ [],
      some (record { noticed_id = 1; actual_diff = pos 5 }),
    )
unfolding do_xp_transaction base_transaction last_transaction reward_transaction blank upsert ◌+ℤ◌
merged = refl

abbrev ride : Trip
ride = record {
  trip_id = 1;
  start_time = 0;
  end_time = 600;
  submitter = 7;
  submit_time = 700;
  edit_time = 0;
  edited = false;
  user_confirmed = false;
  station_uses = stop 1 network_entry ∷ stop 2 interchange ∷ stop 3 network_exit ∷ [];
}
  where
    stop : ℕ → StationUseType → StationUse
    stop s t = record {
      use_station = s;
      entry_time = 0;
      leave_time = 600;
      use_type = t;
      manual = false;
      source_line = none;
      target_line = none;
    }

ride_reward : (compute_reward (λ t. 12) ride).xp ≡ 34
unfolding compute_reward visit_all
ride_reward = refl

compute_reward_lem_example :
    (stops : List ℕ) × (changes : List ℕ) × Lists (λ x. Has x (stations_of ride.station_uses)) stops
    × Lists (λ x. Has x (interchanges_of ride.station_uses)) changes
    × ((compute_reward (λ t. 12) ride).station_count ≡ length stops)
    × ((compute_reward (λ t. 12) ride).interchange_count ≡ length changes)
    × ((compute_reward (λ t. 12) ride).station_count < 2 → (compute_reward (λ t. 12) ride).xp ≡ 0)
    × (2 ≤ (compute_reward (λ t. 12) ride).station_count
        → (7 * (length stops + length changes) ≤ (compute_reward (λ t. 12) ride).xp)
          × ((compute_reward (λ t. 12) ride).xp ≤ 9 * (length stops + length changes))
          × (on_peak 12 ≡ true
              → (compute_reward (λ t. 12) ride).xp ≡ 7 * (length stops + length changes)))
compute_reward_lem_example = compute_reward_lem (λ t. 12) ride
