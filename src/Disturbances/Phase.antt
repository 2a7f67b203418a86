-- ===== src/Disturbances/Phase.antt =====
-- The life of a disturbance as a state machine: whether a line is working, disturbed by the word
-- of the community, or disturbed officially. AddStatus refines the machine.
use disturbancesmlx.Prelude.{
  ℕ, ◌≡◌, Bool, true, false, List, [], ◌∷◌, arith, select, if◌then◌else◌, ◌&&◌, count,
  length-select, count-select, ltb,
}
use disturbancesmlx.Disturbances.Model.{Row, valid, ongoing_in}

-- What a line's ongoing disturbance is.
pub data Phase : Type 0 where
  idle unofficial official : Phase

-- An ongoing disturbance of the line that has been made official.
abbrev pub official_in : ℕ → Row → Bool
official_in line r = ongoing_in line r && valid r.otime_start

unfoldable pub phase : ℕ → List Row → Phase
phase line rows =
    if ltb 0 (count (official_in line) rows)
    then official
    else if ltb 0 (count (ongoing_in line) rows)
    then unofficial
    else idle

-- The step of the machine on a status: is it downtime, is its source official.
unfoldable pub next : Phase → Bool → Bool → Phase
next idle true true = official
next idle true false = unofficial
next idle false o = idle
next unofficial true true = official
next unofficial true false = unofficial
next unofficial false true = unofficial
next unofficial false false = idle
next official true o = official
next official false true = idle
next official false false = official

-- Repeating a status changes nothing in the machine.
pub next_idem : (p : Phase) (d o : Bool) → next (next p d o) d o ≡ next p d o
unfolding next
next_idem p d o = ground arith

module _ (line : ℕ) (rows : List Row) where
  pub phase_empty : select (ongoing_in line) rows ≡ [] → phase line rows ≡ idle
  unfolding phase
  phase_empty e = ground (
    arith,
    length-select (ongoing_in line) rows,
    count-select (ongoing_in line) (λ (r : Row). valid r.otime_start) rows,
  )

  pub phase_single :
      (r : Row)
      → select (ongoing_in line) rows ≡ r ∷ []
      → phase line rows ≡ (if valid r.otime_start then official else unofficial)
  unfolding phase
  phase_single r e = ground (
    arith,
    length-select (ongoing_in line) rows,
    count-select (ongoing_in line) (λ (r : Row). valid r.otime_start) rows,
  )
