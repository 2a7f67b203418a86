-- ===== src/Examples/Disturbances.antt =====
-- A line that the community reported, the operator confirmed and the operator declared solved.
use disturbancesmlx.Prelude.{
  ℕ, ◌≡◌, refl, ◌↔◌, Bool, true, false, none, [], ◌∷◌, arith, upsert, select, sort_by, Has,
}
use disturbancesmlx.Disturbances.AddStatus.{
  Op, commit, Outcome, status_update, statuses_update, disturbance_update, is_duplicate, affect,
  new_disturbance, save, run_lifecycle, add_status, handle_new_status,
}
use disturbancesmlx.Disturbances.Categories.{Distinct, Contributes, categories_exact}
use disturbancesmlx.Disturbances.Change.{IsWellFormed}
use disturbancesmlx.Disturbances.Errors.{Notified, add_status-Notified, add_status_succeeds}
use disturbancesmlx.Disturbances.Messages.{
  lower, contains, classify, compute_msg_type, DisturbanceCategory, categories,
}
use disturbancesmlx.Disturbances.Model.{
  train, delayed, long_wait, unset, report_begin, ml_solved, ml_composite, Source, Status,
  Disturbance, Row, Db, to_row, of_row, ongoing_disturbances, last_status, last_status_in,
}
use disturbancesmlx.Disturbances.Phase.{phase, next}
use disturbancesmlx.Disturbances.Refines.{phase-add_status}
use disturbancesmlx.Disturbances.Reachable.{nothing, received, IsSound, Reachable-IsSound}

abbrev pub community : Source
community = record { id = 2; name = "UnderLX user community"; automatic = false; official = false }

abbrev metro : Source
metro = record { id = 3; name = "Metro de Lisboa"; automatic = true; official = true }

abbrev pub reported : Status
reported = record {
  id = 100;
  time = 1000;
  line = 1;
  is_downtime = true;
  text = "Os utilizadores comunicaram problemas na circulação";
  source = community;
  msg_type = report_begin;
}

abbrev confirmed : Status
confirmed = record {
  id = 101;
  time = 2000;
  line = 1;
  is_downtime = true;
  text =
      "Devido a avaria de comboio, a circulação encontra-se com perturbações. O tempo de espera pode ser superior ao normal";
  source = metro;
  msg_type = unset;
}

abbrev solved : Status
solved = record {
  id = 102;
  time = 3000;
  line = 1;
  is_downtime = false;
  text = "circulação normal";
  source = metro;
  msg_type = ml_solved;
}

abbrev pub no_faults : Op → Bool
no_faults op = false

abbrev lost_commit : Op → Bool
lost_commit commit = true
lost_commit _ = false

-- The line after the first report.
abbrev pub open_row : Row
open_row = record {
  id = 10;
  time_start = 1000;
  time_end = none;
  otime_start = none;
  otime_end = none;
  line = 1;
  description = "Os utilizadores comunicaram problemas na circulação";
  notes = none;
  statuses = reported ∷ [];
}

abbrev pub empty_db : Db
empty_db = record { sources = []; statuses = []; disturbances = [] }

abbrev pub open_db : Db
open_db = record {
  sources = community ∷ [];
  statuses = reported ∷ [];
  disturbances = open_row ∷ [];
}

abbrev step : Db → Status → Outcome
step db s = add_status no_faults 20 1 db s true

-- Everything that a run computes with.
evaluation : Unit {0}
unfolding add_status run_lifecycle save affect new_disturbance to_row upsert select sort_by
    status_update statuses_update disturbance_update ongoing_disturbances last_status is_duplicate
evaluation = tt

first_report : (add_status no_faults 10 1 empty_db reported true).db ≡ open_db
unfolding evaluation
first_report = refl

pub open_db-IsWellFormed : IsWellFormed open_db.disturbances
open_db-IsWellFormed = record { keyed = (tt, tt); single = λ line. ground arith }

phase-add_status_example :
    phase 1 (step open_db confirmed).db.disturbances ≡ next (phase 1 open_db.disturbances) true true
unfolding is_duplicate last_status last_status_in
phase-add_status_example =
    phase-add_status no_faults 20 1 open_db confirmed true (omega arith) open_db-IsWellFormed
      ((add_status_succeeds no_faults 20 1 open_db confirmed true (λ op. refl)).1 refl) refl

add_status-Notified_example : Notified open_db (add_status lost_commit 20 1 open_db confirmed true)
add_status-Notified_example = add_status-Notified lost_commit 20 1 open_db confirmed true

add_status_succeeds_example : ((step open_db confirmed).error ≡ none) ↔ ◌≡◌ {A = ℕ} 1 1
add_status_succeeds_example = add_status_succeeds no_faults 20 1 open_db confirmed true (λ op. refl)

ended : Disturbance
ended = record (of_row open_row) { statuses = reported ∷ confirmed ∷ [] }

categories_exact_example :
    Distinct (categories ended)
    × ((c : DisturbanceCategory) → Has c (categories ended) ↔ Contributes c ended.statuses)
categories_exact_example = categories_exact ended

confirmed_type : (compute_msg_type confirmed).msg_type ≡ ml_composite train delayed long_wait
unfolding compute_msg_type classify contains lower
confirmed_type = refl

Reachable-IsSound_example : IsSound 1000 (
    handle_new_status no_faults false false 10 reported true
      (record { sources = []; statuses = []; disturbances = [] }))
Reachable-IsSound_example =
    Reachable-IsSound (received no_faults false false 10 reported true nothing (omega arith) tt)
