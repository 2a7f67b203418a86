-- ===== src/Reports/Situation.antt =====
-- What one round of evaluateSituation does to a line, in each of the phases of the line.
use disturbancesmlx.Prelude.{
  ℕ, ◌≡◌, ◌⊎◌, inl, inr, Bool, Option, [], ◌∷◌, ℤ, pos, leb_ℤ, sort_by, select-AtMostOne,
  if◌then◌else◌, Bool-cases,
}
use disturbancesmlx.Clock.{Time}
use disturbancesmlx.Disturbances.Change.{IsWellFormed}
use disturbancesmlx.Disturbances.Model.{
  Status, Disturbance, Db, of_row, ongoing_in, ongoing_disturbances,
}
use disturbancesmlx.Disturbances.Phase.{
  idle, unofficial, official, phase, phase_empty, phase_single,
}
use disturbancesmlx.Reports.Cache.{Cache}
use disturbancesmlx.Reports.Evaluate.{
  Floats, half, ReportHandler, threshold_for_line, start_disturbance, end_disturbance,
  evaluate_line, review,
}
use disturbancesmlx.Reports.Model.{ReportData, Key, count_votes, clear_votes}

ongoing_cases :
    (db : Db) (line : ℕ)
    → IsWellFormed db.disturbances
    → ((phase line db.disturbances ≡ idle) × (ongoing_disturbances db line ≡ []))
      ⊎ ((d : Disturbance) × (phase line db.disturbances
            ≡ (if d.official then official else unofficial))
          × (ongoing_disturbances db line ≡ d ∷ []))
unfolding ongoing_disturbances sort_by
ongoing_cases db line w =
    elim (select-AtMostOne (ongoing_in line) db.disturbances (w.single line)) [
      | inl e ↦ inl (phase_empty line db.disturbances e, rw (e, ongoing_disturbances))
      | inr (r, e, m, q) ↦ inr (
        of_row r,
        unfold of_row in phase_single line db.disturbances r e,
        rw (e, ongoing_disturbances),
      )
    ]

module _ (c : Cache Key ReportData) (t : Cache ℕ ℤ) (floats : Floats) (users : ℕ → ℕ)
    (new_uuid : ℕ → Bool → Option ℕ) (report : Status → Bool → Db → Db) where
  -- One round on a line with at most one ongoing disturbance. An official one only has the line's
  -- votes cleared; an unofficial one is ended when the votes fall below half the threshold; on a
  -- line with none, one is started when the votes reach the threshold.
  abbrev pub Evaluated : Time → ℕ → ReportHandler c t floats users new_uuid report → Db → Type 0
  Evaluated now line h db =
      let (h', db') = evaluate_line c t floats users new_uuid report now line h db in
      let threshold = (threshold_for_line c t floats users new_uuid report now line h).0 in
      let votes = pos (count_votes c now line h.reports) in
      ((phase line db.disturbances ≡ official)
        × (db' ≡ db)
        × (h' ≡ record h { reports = clear_votes c now line h.reports }))
      ⊎ ((phase line db.disturbances ≡ unofficial)
          × (h'.reports ≡ h.reports)
          × (db' ≡ (
              if leb_ℤ (half threshold) votes
              then db
              else end_disturbance c t floats users new_uuid report now line db)))
      ⊎ ((phase line db.disturbances ≡ idle)
          × (h'.reports ≡ h.reports)
          × (db' ≡ (
              if leb_ℤ threshold votes
              then start_disturbance c t floats users new_uuid report now line
                  (threshold_for_line c t floats users new_uuid report now line h).1 db
              else db)))

  pub evaluate_line_lem :
      (now : Time) (line : ℕ) (h : ReportHandler c t floats users new_uuid report) (db : Db)
      → IsWellFormed db.disturbances
      → Evaluated now line h db
  unfolding evaluate_line review
  evaluate_line_lem now line h db w = elim (ongoing_cases db line w) [
    | inl (p, e) ↦
        inr (inr (p, unfold threshold_for_line in rw (e, evaluate_line), rw (e, evaluate_line)))
    | inr (d, p, e) ↦ elim (Bool-cases d.official) [
      | inl o ↦ inl (rw (p, o), rw (e, evaluate_line) (simp o), rw (e, evaluate_line) (simp o))
      | inr u ↦ inr (
          inl (
            rw (p, u),
            unfold threshold_for_line in rw (e, evaluate_line) (simp u),
            rw (e, evaluate_line) (simp u),
          ))
    ]
  ]
