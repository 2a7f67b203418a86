-- ===== src/Disturbances/Unique.antt =====
-- At most one disturbance is ongoing on a line at any time, and disturbances keep their keys.
use disturbancesmlx.Disturbances.Model.{
  Row, Status, Disturbance, Db, of_row, to_row, row_id, ongoing_in,
}
use disturbancesmlx.Disturbances.AddStatus.{Op, affect, new_disturbance, add_status, Outcome}
use disturbancesmlx.Disturbances.Change.{
  Change, opened, affected, IsWellFormed, add_status-Change, stopped, skipped, calm, ignored,
}
use disturbancesmlx.Prelude.{
  ℕ, ◌≤◌, ◌≡◌, Bool, true, some, List, [], arith, upsert, select, count, Has, Fresh,
  count-upsert-Fresh, upsert-Keyed, length-select, sym, count-upsert_replace,
}

-- A disturbance keeps its key and its line.
pub affect_keeps :
    (s : Status) (d : Disturbance) {d' : Disturbance}
    → affect s d ≡ some d'
    → (d'.id ≡ d.id) × (d'.line ≡ d.line)
unfolding affect
affect_keeps s d e = ground arith

opened_count :
    (id line l : ℕ) (s : Status) (rows : List Row)
    → IsWellFormed rows
    → Fresh row_id id rows
    → select (ongoing_in line) rows ≡ []
    → count (ongoing_in l) (upsert row_id (to_row (new_disturbance id line s)) rows) ≤ 1
unfolding to_row new_disturbance
opened_count id line l s rows w fresh empty = ground (
  arith,
  count-upsert-Fresh row_id (ongoing_in l) (to_row (new_disturbance id line s)) rows fresh,
  length-select (ongoing_in line) rows,
  w.single l,
)

affected_count :
    (line l : ℕ) (s : Status) (rows : List Row) (r : Row) (d : Disturbance)
    → IsWellFormed rows
    → Has r rows
    → ongoing_in line r ≡ true
    → affect s (of_row r) ≡ some d
    → count (ongoing_in l) (upsert row_id (to_row d) rows) ≤ 1
unfolding to_row of_row
affected_count line l s rows r d w m t e =
    let keeps = affect_keeps s (of_row r) e in
    ground (
      arith,
      keeps,
      count-upsert_replace row_id (ongoing_in l) (to_row d) r rows w.keyed m (sym keeps.0),
      w.single l,
    )

pub Change-IsWellFormed :
    {id line : ℕ} {s : Status} {repeated : Bool} {old : Db} {o : Outcome}
    → Fresh row_id id old.disturbances
    → Change id line s repeated old o
    → IsWellFormed old.disturbances
    → IsWellFormed o.db.disturbances
Change-IsWellFormed fresh (stopped e q) w = rw q w
Change-IsWellFormed fresh (skipped e d q) w = rw q w
Change-IsWellFormed fresh (calm e up empty q) w = rw q w
Change-IsWellFormed fresh (ignored r e one n q) w = rw q w
Change-IsWellFormed {id} {line} {s} {old = old} fresh (opened e down empty q) w = rw q (record {
  keyed = upsert-Keyed row_id _ old.disturbances w.keyed;
  single = λ l. opened_count id line l s old.disturbances w fresh empty;
})
Change-IsWellFormed {id} {line} {s} {old = old} fresh (affected r d e m t one n q) w =
    rw q (record {
      keyed = upsert-Keyed row_id _ old.disturbances w.keyed;
      single = λ l. affected_count line l s old.disturbances r d w m t n;
    })

-- Whatever the database answers, AddStatus leaves at most one ongoing disturbance on every line
-- and no key twice, if that was so before and the new key is not in use.
pub add_status-IsWellFormed :
    (fails : Op → Bool) (id line : ℕ) (db : Db) (s : Status) (let_notify : Bool)
    → Fresh row_id id db.disturbances
    → IsWellFormed db.disturbances
    → IsWellFormed (add_status fails id line db s let_notify).db.disturbances
add_status-IsWellFormed fails id line db s let_notify fresh w =
    Change-IsWellFormed fresh (add_status-Change fails id line db s let_notify w) w
