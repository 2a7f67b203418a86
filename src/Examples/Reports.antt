-- ===== src/Examples/Reports.antt =====
-- Two reports of passengers on a line, held in an association list for the cache.
use disturbancesmlx.Prelude.{
  ℕ, ◌≡◌, refl, true, none, some, List, [], ◌∷◌, arith, ℤ, pos, if◌then◌else◌, false, upsert,
  select, sort_by, ◌+ℤ◌,
}
use disturbancesmlx.Reports.Cache.{Cache, has_key}
use disturbancesmlx.Reports.Evaluate.{
  Floats, ReportHandler, evaluate_line, solved_status, threshold_for_line,
}
use disturbancesmlx.Reports.Model.{
  Report, report_through_api, ReportData, Key, key_eq, Activity, vote_weight, add_report_manually,
  handle_report, count_votes,
}
use disturbancesmlx.Disturbances.Model.{last_status_in, last_status, ongoing_disturbances}
use disturbancesmlx.Disturbances.Phase.{idle, phase}
use disturbancesmlx.Reports.Lifecycle.{reporter, evaluate_line_ends, evaluate_line_never_first}
use disturbancesmlx.Examples.Disturbances.{no_faults, open_db, open_db-IsWellFormed, empty_db}
use disturbancesmlx.Disturbances.AddStatus.{is_duplicate}

-- A cache whose items never expire; a delete takes away every item of the key.
abbrev delete_key : {V : Type 0} → Key → List (Key × V) → List (Key × V)
delete_key k [] = []
delete_key k ((j, v) ∷ xs) = if key_eq j k then delete_key k xs else (j, v) ∷ delete_key k xs

abbrev list_cache : Cache Key ReportData
list_cache = record {
  Carrier = List (Key × ReportData);
  items = λ now s. s;
  add = λ now k v ttl s. if has_key key_eq k s then none else some ((k, v) ∷ s);
  set_item = λ now k v ttl s. (k, v) ∷ delete_key k s;
  delete = λ k s. delete_key k s;
}

-- One threshold for each line, the last one that was computed.
abbrev last_cache : Cache ℕ ℤ
last_cache = record {
  Carrier = List (ℕ × ℤ);
  items = λ now s. s;
  add = λ now k v ttl s. none;
  set_item = λ now k v ttl s. (k, v) ∷ [];
  delete = λ k s. [];
}

abbrev plain_floats : Floats
plain_floats = record {
  Multiplier = Unit;
  log_threshold = λ n. pos n;
  scaled_mean = λ sum n m. sum;
}

abbrev on_train : Activity
on_train = record { in_line = true; in_network = true; recent_trips = some 0 }

abbrev first_report : Report
first_report = report_through_api 5000 7 1 "station"

abbrev no_votes : List (Key × ReportData)
no_votes = []

abbrev one_vote : List (Key × ReportData)
one_vote = ((1, 7), record { report = first_report; weight = 30 }) ∷ []

abbrev handler :
    List (Key × ReportData)
    → ReportHandler list_cache last_cache plain_floats
        (λ line. 0)
        (λ line first. some 11)
        (reporter no_faults 20)
handler votes = record {
  reports = votes;
  thresholds = λ line. [];
  multiplier = tt;
  base_offset = pos 0;
}

accepted_report :
    handle_report list_cache 5000 (some false) on_train first_report no_votes ≡ (one_vote, none)
unfolding handle_report add_report_manually vote_weight report_through_api
accepted_report = refl

evaluate_line_ends_example :
    phase 1
      (evaluate_line list_cache last_cache plain_floats
        (λ line. 0)
        (λ line first. some 11)
        (reporter no_faults 20)
        6000
        1
        (handler no_votes)
        open_db).1.disturbances
    ≡ idle
unfolding threshold_for_line phase ongoing_disturbances is_duplicate last_status last_status_in
    sort_by upsert select solved_status count_votes ◌+ℤ◌
evaluate_line_ends_example =
    evaluate_line_ends list_cache last_cache plain_floats (λ line. 0) (λ line first. some 11)
      no_faults 20 6000 1 11 (handler no_votes) open_db (λ op. refl) open_db-IsWellFormed
      (omega arith) refl refl refl refl

evaluate_line_never_first_example :
    (evaluate_line list_cache last_cache plain_floats
      (λ line. 0)
      (λ line first. some 11)
      (reporter no_faults 20)
      6000
      1
      (handler one_vote)
      empty_db).1
    ≡ empty_db
unfolding select
evaluate_line_never_first_example =
    evaluate_line_never_first list_cache last_cache plain_floats (λ line. 0) (λ line first. some 11)
      no_faults 20 6000 1 (reporter no_faults 20) (handler one_vote) empty_db refl
