-- ===== src/Disturbances/Refines.antt =====
-- AddStatus refines the state machine of Phase.antt, line by line.
use disturbancesmlx.Prelude.{
  ℕ, ◌≡◌, sym, true, none, some, List, [], ◌∷◌, arith, upsert, select, Has, Fresh,
  count-upsert-Fresh, count-upsert_replace, length-select, count-select, if◌then◌else◌, refl, ap,
  Bool, false,
}
use disturbancesmlx.Disturbances.AddStatus.{
  affect, new_disturbance, Op, Outcome, with_default, is_duplicate, add_status,
}
use disturbancesmlx.Disturbances.Change.{
  IsWellFormed, previous, Change, stopped, skipped, calm, opened, ignored, affected,
  add_status-Change,
}
use disturbancesmlx.Disturbances.Model.{
  Status, Disturbance, Row, valid, to_row, of_row, row_id, ongoing_in, Db,
}
use disturbancesmlx.Disturbances.Phase.{
  idle, unofficial, official, official_in, phase, next, phase_empty, phase_single,
}
use disturbancesmlx.Disturbances.Unique.{affect_keeps}

module _ (line : ℕ) (s : Status) (rows : List Row) (w : IsWellFormed rows) where
  opened_phase :
      (id : ℕ)
      → Fresh row_id id rows
      → s.is_downtime ≡ true
      → select (ongoing_in line) rows ≡ []
      → phase line (upsert row_id (to_row (new_disturbance id line s)) rows)
        ≡ next idle true s.source.official
  unfolding phase next to_row new_disturbance
  opened_phase id fresh down empty =
      let row = to_row (new_disturbance id line s) in
      ground (
        arith,
        count-upsert-Fresh row_id (ongoing_in line) row rows fresh,
        count-upsert-Fresh row_id (official_in line) row rows fresh,
        length-select (ongoing_in line) rows,
        count-select (ongoing_in line) (λ (r : Row). valid r.otime_start) rows,
      )

  affected_phase :
      (r : Row) (d : Disturbance)
      → Has r rows
      → ongoing_in line r ≡ true
      → select (ongoing_in line) rows ≡ r ∷ []
      → affect s (of_row r) ≡ some d
      → phase line (upsert row_id (to_row d) rows)
        ≡ next
            (if valid r.otime_start then official else unofficial)
            s.is_downtime
            s.source.official
  unfolding phase next affect to_row of_row
  affected_phase r d m t one e =
      let same_key = sym (affect_keeps s (of_row r) e).0 in
      ground (
        arith,
        count-upsert_replace row_id (ongoing_in line) (to_row d) r rows w.keyed m same_key,
        count-upsert_replace row_id (official_in line) (to_row d) r rows w.keyed m same_key,
        length-select (ongoing_in line) rows,
        count-select (ongoing_in line) (λ (r : Row). valid r.otime_start) rows,
      )

  ignored_phase :
      (r : Row)
      → affect s (of_row r) ≡ none
      → next (if valid r.otime_start then official else unofficial) s.is_downtime s.source.official
        ≡ (if valid r.otime_start then official else unofficial)
  unfolding next affect of_row
  ignored_phase r e = ground arith

-- A status that is stored without an error moves its line exactly as the state machine says; the
-- line is well formed and the new key is not in use.
pub phase-add_status :
    (fails : Op → Bool) (id line : ℕ) (db : Db) (s : Status) (let_notify : Bool)
    → Fresh row_id id db.disturbances
    → IsWellFormed db.disturbances
    → (add_status fails id line db s let_notify).error ≡ none
    → is_duplicate (previous fails db line) s ≡ false
    → phase line (add_status fails id line db s let_notify).db.disturbances
      ≡ next (phase line db.disturbances) s.is_downtime s.source.official
phase-add_status fails id line db s let_notify fresh w ok new =
    step ok new (add_status-Change fails id line db s let_notify w)
  where
    step :
        {repeated : Bool} {o : Outcome}
        → o.error ≡ none
        → repeated ≡ false
        → Change id line (with_default s) repeated db o
        → phase line o.db.disturbances
          ≡ next (phase line db.disturbances) s.is_downtime s.source.official
    step ok new (stopped e q) = cc (ap valid ok)
    step ok new (skipped e d q) = cc
    step ok new (calm e up empty q) =
        rw (q, phase_empty line db.disturbances empty, up) (unfold next in refl)
    step ok new (opened e down empty q) = rw (
      q,
      opened_phase line (with_default s) db.disturbances w id fresh down empty,
      phase_empty line db.disturbances empty,
      down,
    )
    step ok new (ignored r e one n q) =
        rw (q, phase_single line db.disturbances r one)
          (sym (ignored_phase line (with_default s) db.disturbances w r n))
    step ok new (affected r d e m t one n q) =
        rw (q, phase_single line db.disturbances r one)
          (affected_phase line (with_default s) db.disturbances w r d m t one n)
