-- ===== src/Reports/Lifecycle.antt =====
-- The votes and the life of a disturbance together: evaluateSituation with handleNewStatus for its
-- status reporter, which is how main.go sets them up.
use disturbancesmlx.Prelude.{
  ℕ, ◌≡◌, refl, inl, inr, Bool, true, false, Option, some, [], ℤ, pos, leb_ℤ, select, Fresh, sym,
  ap, ◌∙◌, ◌&&◌, none, List, count, sort_by, select_none, count-select, arith, Option-cases,
}
use disturbancesmlx.Clock.{Time}
use disturbancesmlx.Disturbances.AddStatus.{Op, is_duplicate, handle_new_status}
use disturbancesmlx.Disturbances.Change.{IsWellFormed, previous}
use disturbancesmlx.Disturbances.Errors.{add_status_succeeds}
use disturbancesmlx.Disturbances.Model.{
  Status, Db, row_id, of_line, Row, ongoing_in, ongoing_disturbances, last_ongoing_disturbance,
  last_disturbance, max_of, column_is, started, first_row,
}
use disturbancesmlx.Disturbances.Phase.{idle, unofficial, phase, next}
use disturbancesmlx.Disturbances.Refines.{phase-add_status}
use disturbancesmlx.Reports.Cache.{Cache}
use disturbancesmlx.Reports.Evaluate.{
  Floats, solved_status, half, ReportHandler, threshold_for_line, evaluate_line, end_disturbance,
  start_disturbance,
}
use disturbancesmlx.Reports.Model.{ReportData, Key, count_votes, earliest_vote}
use disturbancesmlx.Reports.Situation.{evaluate_line_lem}

-- The reporter when nothing fails; `key` gives the key of a new disturbance.
abbrev pub reporter : (Op → Bool) → ℕ → Status → Bool → Db → Db
reporter fails key s notify db = handle_new_status fails false false key s notify db

handle_new_status-phase :
    (fails : Op → Bool) (id : ℕ) (s : Status) (notify : Bool) (db : Db)
    → ((op : Op) → fails op ≡ false)
    → Fresh row_id id db.disturbances
    → IsWellFormed db.disturbances
    → is_duplicate (previous fails db s.line) s ≡ false
    → phase s.line (handle_new_status fails false false id s notify db).disturbances
      ≡ next (phase s.line db.disturbances) s.is_downtime s.source.official
unfolding handle_new_status
handle_new_status-phase fails id s notify db h fresh w new =
    let ok = (add_status_succeeds fails id s.line db s notify h).1 refl in
    rw (ok, handle_new_status) (phase-add_status fails id s.line db s notify fresh w ok new)

select-and :
    (p q : Row → Bool) (rows : List Row) → select p rows ≡ [] → select (λ r. p r && q r) rows ≡ []
select-and p q rows e =
    select_none (λ r. p r && q r) rows (sym (count-select p q rows) ∙ ap (count q) e)

no_ongoing :
    (db : Db) (line : ℕ)
    → select (of_line line) db.disturbances ≡ []
    → ongoing_disturbances db line ≡ []
unfolding ongoing_disturbances sort_by
no_ongoing db line e =
    let none_ongoing : select (ongoing_in line) db.disturbances ≡ [] =
      select-and (of_line line) _ db.disturbances e in
    rw (none_ongoing, ongoing_disturbances)

no_last_ongoing :
    (db : Db) (line : ℕ)
    → select (of_line line) db.disturbances ≡ []
    → last_ongoing_disturbance db line ≡ none
unfolding last_ongoing_disturbance
no_last_ongoing db line e =
    let latest = max_of started (select (ongoing_in line) db.disturbances) in
    ap first_row (select-and (of_line line) (λ r. column_is (started r) latest) db.disturbances e)

no_last :
    (db : Db) (line : ℕ)
    → select (of_line line) db.disturbances ≡ []
    → last_disturbance db line ≡ none
unfolding last_disturbance
no_last db line e =
    let latest = max_of (λ r. r.time_end) (select (of_line line) db.disturbances) in
    rw (no_last_ongoing db line e, last_disturbance)
      (ap first_row
        (select-and (of_line line) (λ r. column_is r.time_end latest) db.disturbances e))

start_nothing :
    (c : Cache Key ReportData) (t : Cache ℕ ℤ) (floats : Floats) (users : ℕ → ℕ)
    (new_uuid : ℕ → Bool → Option ℕ) (report : Status → Bool → Db → Db) (now : Time) (line : ℕ)
    (h : ReportHandler c t floats users new_uuid report) (db : Db)
    → last_disturbance db line ≡ none
    → start_disturbance c t floats users new_uuid report now line h db ≡ db
unfolding start_disturbance
start_nothing c t floats users new_uuid report now line h db e =
    elim (Option-cases (earliest_vote c now line h.reports)) [
      | inl q ↦ rw (q, start_disturbance)
      | inr (v, q) ↦ rw (q, start_disturbance, e)
    ]

module _ (c : Cache Key ReportData) (t : Cache ℕ ℤ) (floats : Floats) (users : ℕ → ℕ)
    (new_uuid : ℕ → Bool → Option ℕ) (fails : Op → Bool) (key : ℕ) where
  -- When no call fails and the solved status is not a repetition, a disturbance that only the
  -- community reported ends as soon as the votes of its line are fewer than half the threshold.
  pub evaluate_line_ends :
      (now : Time) (line id : ℕ) (h : ReportHandler c t floats users new_uuid (reporter fails key))
      (db : Db)
      → ((op : Op) → fails op ≡ false)
      → IsWellFormed db.disturbances
      → Fresh row_id key db.disturbances
      → phase line db.disturbances ≡ unofficial
      → new_uuid line true ≡ some id
      → is_duplicate (previous fails db line) (solved_status id now line) ≡ false
      → leb_ℤ
          (half (threshold_for_line c t floats users new_uuid (reporter fails key) now line h).0)
          (pos (count_votes c now line h.reports))
        ≡ false
      → phase line
          (evaluate_line c t floats users new_uuid
            (reporter fails key)
            now
            line
            h
            db).1.disturbances
        ≡ idle
  unfolding end_disturbance solved_status next
  evaluate_line_ends now line id h db ok w fresh p u new few =
      elim (evaluate_line_lem c t floats users new_uuid (reporter fails key) now line h db w) [
        | inl (q, _, _) ↦ cc
        | inr (inl (q, _, e)) ↦
            rw (e, few, u, end_disturbance)
              (unfold solved_status next in
                handle_new_status-phase fails key (solved_status id now line) true db ok fresh w new
                ∙ ap (λ p'. next p' false false) p)
        | inr (inr (q, _, _)) ↦ cc
      ]

  -- A line that has never had a disturbance cannot get its first one from votes, however many.
  pub evaluate_line_never_first :
      (now : Time) (line : ℕ) (report : Status → Bool → Db → Db)
      (h : ReportHandler c t floats users new_uuid report) (db : Db)
      → select (of_line line) db.disturbances ≡ []
      → (evaluate_line c t floats users new_uuid report now line h db).1 ≡ db
  unfolding evaluate_line
  evaluate_line_never_first now line report h db none_yet =
      let quiet =
        start_nothing c t floats users new_uuid report now line
          (threshold_for_line c t floats users new_uuid report now line h).1 db
          (no_last db line none_yet) in
      rw (no_ongoing db line none_yet, evaluate_line, quiet) (ground arith)
