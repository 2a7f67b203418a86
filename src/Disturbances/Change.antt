-- ===== src/Disturbances/Change.antt =====
-- What one call of AddStatus does to the table of disturbances, whatever the database calls answer.
use disturbancesmlx.Prelude.{
  ℕ, ◌≤◌, Bool, true, none, some, List, [], ◌∷◌, ◌≡◌, refl, ◌⊎◌, inl, inr, arith, Bool-cases,
  Option-cases, upsert, select, sort_by, count, get_last?, Has, Keyed, AtMostOne, select-AtMostOne,
  false, Option, if◌then◌else◌,
}
use disturbancesmlx.Disturbances.Model.{
  Status, Disturbance, Row, Db, of_row, to_row, row_id, ongoing_in, ongoing_disturbances, valid,
  last_status,
}
use disturbancesmlx.Disturbances.AddStatus.{
  Op, with_default, status_update, statuses_update, disturbance_update, affect, new_disturbance,
  run_lifecycle, add_status, save, new_id, query_last, StatusNotification, Outcome, is_duplicate,
  tx_commit,
}

-- The primary key, and at most one ongoing disturbance on each line.
pub record IsWellFormed (rows : List Row) : Type 0 where
  pub keyed : Keyed row_id rows
  pub single : (line : ℕ) → count (ongoing_in line) rows ≤ 1

-- The status whose repetition is not stored.
abbrev pub previous : (Op → Bool) → Db → ℕ → Option Status
previous fails db line = if fails query_last then none else last_status db line

-- Every way in which the call can end. `repeated` says whether the status is a repetition.
pub data Change (id line : ℕ) (s : Status) (repeated : Bool) (old : Db) (o : Outcome) : Type 0 where
  stopped : valid o.error ≡ true → o.db ≡ old → Change id line s repeated old o
  skipped : o.error ≡ none → repeated ≡ true → o.db ≡ old → Change id line s repeated old o
  calm :
      o.error ≡ none
      → s.is_downtime ≡ false
      → select (ongoing_in line) old.disturbances ≡ []
      → o.db.disturbances ≡ old.disturbances
      → Change id line s repeated old o
  opened :
      o.error ≡ none
      → s.is_downtime ≡ true
      → select (ongoing_in line) old.disturbances ≡ []
      → o.db.disturbances ≡ upsert row_id (to_row (new_disturbance id line s)) old.disturbances
      → Change id line s repeated old o
  ignored :
      (r : Row)
      → o.error ≡ none
      → select (ongoing_in line) old.disturbances ≡ r ∷ []
      → affect s (of_row r) ≡ none
      → o.db.disturbances ≡ old.disturbances
      → Change id line s repeated old o
  affected :
      (r : Row) (d : Disturbance)
      → o.error ≡ none
      → Has r old.disturbances
      → ongoing_in line r ≡ true
      → select (ongoing_in line) old.disturbances ≡ r ∷ []
      → affect s (of_row r) ≡ some d
      → o.db.disturbances ≡ upsert row_id (to_row d) old.disturbances
      → Change id line s repeated old o

statuses_update_rows :
    (ss : List Status) (db : Db) → (statuses_update ss db).disturbances ≡ db.disturbances
unfolding statuses_update status_update
statuses_update_rows [] db = refl
statuses_update_rows (s ∷ ss) db = statuses_update_rows ss (status_update s db)

pub disturbance_update_rows :
    (d : Disturbance) (db : Db)
    → (disturbance_update d db).disturbances ≡ upsert row_id (to_row d) db.disturbances
unfolding disturbance_update
disturbance_update_rows d db =
    statuses_update_rows d.statuses
      (record db { disturbances = upsert row_id (to_row d) db.disturbances })

module _ (fails : Op → Bool) (old : Db) where
  save_cases :
      (let_notify : Bool) (s : Status) (d : Disturbance) (db : Db)
      → let o = save fails old let_notify s d db in
        ((valid o.error ≡ true) × (o.db ≡ old))
        ⊎ ((o.error ≡ none) × (o.db ≡ disturbance_update d db))
  unfolding save
  save_cases let_notify s d db = ground arith

  tx_commit_cases :
      (n : Option StatusNotification) (db : Db)
      → let o = tx_commit fails old n db in
        ((valid o.error ≡ true) × (o.db ≡ old)) ⊎ ((o.error ≡ none) × (o.db ≡ db))
  tx_commit_cases n db = ground arith

module _ (fails : Op → Bool) (old : Db) (id line : ℕ) (let_notify repeated : Bool) (s : Status)
    (db : Db) (same_rows : db.disturbances ≡ old.disturbances) where
  run_none :
      select (ongoing_in line) old.disturbances ≡ []
      → Change id line s repeated old (run_lifecycle fails old id line let_notify s none db)
  unfolding run_lifecycle
  run_none empty = elim (Bool-cases s.is_downtime) [
    | inl down ↦ elim (Bool-cases (fails new_id)) [
      | inl f ↦ simp (down, f) (stopped refl refl)
      | inr f ↦
          let d = new_disturbance id line s in
          elim (save_cases fails old let_notify s d db) [
            | inl (e, q) ↦ simp (down, f) (stopped e q)
            | inr (e, q) ↦
                simp (down, f)
                  (opened e down empty (rw (q, disturbance_update_rows d db, same_rows)))
          ]
    ]
    | inr up ↦ elim (tx_commit_cases fails old none db) [
      | inl (e, q) ↦ simp up (stopped e q)
      | inr (e, q) ↦ simp up (calm e up empty (rw q same_rows))
    ]
  ]

  run_some :
      (r : Row)
      → Has r old.disturbances
      → ongoing_in line r ≡ true
      → select (ongoing_in line) old.disturbances ≡ r ∷ []
      → Change id line s repeated old
          (run_lifecycle fails old id line let_notify s (some (of_row r)) db)
  unfolding run_lifecycle
  run_some r m t one = elim (Option-cases (affect s (of_row r))) [
    | inl q ↦ elim (tx_commit_cases fails old none db) [
      | inl (e, k) ↦ rw (q, run_lifecycle) (stopped e k)
      | inr (e, k) ↦ rw (q, run_lifecycle) (ignored r e one q (rw k same_rows))
    ]
    | inr (d, q) ↦ elim (save_cases fails old let_notify s d db) [
      | inl (e, k) ↦ rw (q, run_lifecycle) (stopped e k)
      | inr (e, k) ↦
          rw (q, run_lifecycle)
            (affected r d e m t one q (rw (k, disturbance_update_rows d db, same_rows)))
    ]
  ]

-- The last of the ongoing disturbances, when there is at most one.
last_ongoing :
    (db : Db) (line : ℕ)
    → AtMostOne (ongoing_in line) db.disturbances
    → ((select (ongoing_in line) db.disturbances ≡ [])
        × (get_last? (ongoing_disturbances db line) ≡ none))
      ⊎ ((r : Row) × (get_last? (ongoing_disturbances db line) ≡ some (of_row r))
          × Has r db.disturbances
          × (ongoing_in line r ≡ true)
          × (select (ongoing_in line) db.disturbances ≡ r ∷ []))
unfolding ongoing_disturbances sort_by
last_ongoing db line (inl e) = inl (e, rw (e, ongoing_disturbances))
last_ongoing db line (inr (r, e, m, t)) = inr (r, rw (e, ongoing_disturbances), m, t, e)

-- The disturbances are looked at only when the status is stored.
pub add_status_cases :
    (fails : Op → Bool) (id line : ℕ) (db : Db) (s : Status) (let_notify : Bool)
    → let o = add_status fails id line db s let_notify in
      ((valid o.error ≡ true) × (o.db ≡ db))
      ⊎ ((o.error ≡ none) × (is_duplicate (previous fails db line) s ≡ true) × (o.db ≡ db))
      ⊎ (o
          ≡ run_lifecycle fails db id line let_notify
              (with_default s)
              (get_last? (ongoing_disturbances (status_update s db) line))
              (status_update s db))
unfolding add_status
add_status_cases fails id line db s let_notify = ground arith

run_lifecycle-Change :
    (fails : Op → Bool) (id line : ℕ) (old db : Db) (s : Status) (let_notify repeated : Bool)
    → IsWellFormed old.disturbances
    → db.disturbances ≡ old.disturbances
    → Change id line s repeated old
        (run_lifecycle fails old id line let_notify s (get_last? (ongoing_disturbances db line)) db)
run_lifecycle-Change fails id line old db s let_notify repeated w e =
    elim (last_ongoing db line (select-AtMostOne _ _ (rw e (w.single line)))) [
      | inl (empty, q) ↦
          rw q (run_none fails old id line let_notify repeated s db e (rw e at empty))
      | inr (r, q, m, t, one) ↦
          rw q (run_some fails old id line let_notify repeated s db e r (rw e at m) t (rw e at one))
    ]

pub add_status-Change :
    (fails : Op → Bool) (id line : ℕ) (db : Db) (s : Status) (let_notify : Bool)
    → IsWellFormed db.disturbances
    → Change id line
        (with_default s)
        (is_duplicate (previous fails db line) s)
        db
        (add_status fails id line db s let_notify)
unfolding status_update
add_status-Change fails id line db s let_notify w =
    elim (add_status_cases fails id line db s let_notify) [
      | inl (e, q) ↦ stopped e q
      | inr (inl (e, d, q)) ↦ skipped e d q
      | inr (inr q) ↦ rw q (
          run_lifecycle-Change fails id line db (status_update s db) (with_default s) let_notify _ w
            refl)
    ]
