-- ===== src/Disturbances/Reachable.antt =====
-- The databases that handleNewStatus of scrapers.go can lead to, one status after another.
use disturbancesmlx.Prelude.{
  ℕ, ◌≤◌, ◌≡◌, refl, ◌⊎◌, inl, inr, Bool, true, false, [], arith, length, sort_by, Fresh,
  select-AtMostOne, Bool-cases, Option-cases,
}
use disturbancesmlx.Clock.{Time, zero_time}
use disturbancesmlx.Disturbances.AddStatus.{Op, add_status, handle_new_status}
use disturbancesmlx.Disturbances.Change.{IsWellFormed}
use disturbancesmlx.Disturbances.Intervals.{AllNested, AllNested-mono, add_status-AllNested}
use disturbancesmlx.Disturbances.Model.{Status, Db, row_id, ongoing_in, ongoing_disturbances}
use disturbancesmlx.Disturbances.Unique.{add_status-IsWellFormed}

-- From no rows, by statuses in order of time, each of which may meet any failing calls; a new
-- disturbance gets an unused identifier.
pub data Reachable : Time → Db → Type 0 where
  nothing : Reachable zero_time (record { sources = []; statuses = []; disturbances = [] })
  received :
      {t : Time} {db : Db} (fails : Op → Bool) (begin_fails commit_fails : Bool) (id : ℕ)
      (s : Status) (allow_notify : Bool)
      → Reachable t db
      → t ≤ s.time
      → Fresh row_id id db.disturbances
      → Reachable s.time (handle_new_status fails begin_fails commit_fails id s allow_notify db)

-- What holds of every database that is reached by the time.
pub record IsSound (t : Time) (db : Db) : Type 0 where
  pub formed : IsWellFormed db.disturbances
  pub nested : AllNested t db.disturbances
  pub one_ongoing : (line : ℕ) → length (ongoing_disturbances db line) ≤ 1

handled :
    (fails : Op → Bool) (begin_fails commit_fails : Bool) (id : ℕ) (s : Status)
    (allow_notify : Bool) (db : Db)
    → (handle_new_status fails begin_fails commit_fails id s allow_notify db ≡ db)
      ⊎ (handle_new_status fails begin_fails commit_fails id s allow_notify db
          ≡ (add_status fails id s.line db s allow_notify).db)
unfolding handle_new_status
handled fails true commit_fails id s allow_notify db = inl refl
handled fails false commit_fails id s allow_notify db =
    elim (Option-cases (add_status fails id s.line db s allow_notify).error) [
      | inr (e, q) ↦ inl (rw (handle_new_status, q) refl)
      | inl q ↦ elim (Bool-cases commit_fails) [
        | inl c ↦ inl (rw (handle_new_status, q, c) refl)
        | inr c ↦ inr (rw (handle_new_status, q, c) refl)
      ]
    ]

one_ongoing_of :
    (db : Db)
    → IsWellFormed db.disturbances
    → (line : ℕ) → length (ongoing_disturbances db line) ≤ 1
unfolding ongoing_disturbances sort_by
one_ongoing_of db w line =
    elim (select-AtMostOne (ongoing_in line) db.disturbances (w.single line)) [
      | inl e ↦ rw (e, ongoing_disturbances) (omega arith)
      | inr (r, e, m, q) ↦ rw (e, ongoing_disturbances) (omega arith)
    ]

-- Whatever statuses are received in order of time and whatever calls fail, the primary key holds,
-- each line has at most one ongoing disturbance, and every official interval lies within the
-- unofficial one, which ends by the time of the last status.
pub Reachable-IsSound : {t : Time} {db : Db} → Reachable t db → IsSound t db
Reachable-IsSound nothing = record {
  formed = record { keyed = tt; single = λ line. ground arith };
  nested = tt;
  one_ongoing = λ line. one_ongoing_of _ (record { keyed = tt; single = λ l. ground arith }) line;
}
Reachable-IsSound
      (received {t} {db} fails begin_fails commit_fails id s allow_notify r later fresh) =
    let before = Reachable-IsSound r in
    elim (handled fails begin_fails commit_fails id s allow_notify db) [
      | inl q ↦ rw q (record {
        formed = before.formed;
        nested = AllNested-mono t s.time db.disturbances later before.nested;
        one_ongoing = before.one_ongoing;
      })
      | inr q ↦
          let w = add_status-IsWellFormed fails id s.line db s allow_notify fresh before.formed in
          rw q (record {
            formed = w;
            nested =
                add_status-AllNested fails id s.line db s allow_notify t before.formed later
                  before.nested;
            one_ongoing = one_ongoing_of _ w;
          })
    ]
