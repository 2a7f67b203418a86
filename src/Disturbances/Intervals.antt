-- ===== src/Disturbances/Intervals.antt =====
-- The times of a disturbance: its official interval lies within its unofficial one.
use disturbancesmlx.Prelude.{
  ℕ, ◌≤◌, ◌≡◌, ◌⊎◌, true, Option, none, some, List, [], ◌∷◌, arith, inl, inr, Bool, upsert, Has,
  ◌==◌, Bool-cases, subst,
}
use disturbancesmlx.Clock.{Time}
use disturbancesmlx.Disturbances.AddStatus.{affect, new_disturbance, Op, Outcome, add_status}
use disturbancesmlx.Disturbances.Model.{
  Status, Disturbance, Row, valid, to_row, of_row, ongoing_in, Db, row_id,
}
use disturbancesmlx.Disturbances.Change.{
  IsWellFormed, Change, stopped, skipped, calm, opened, ignored, affected, add_status-Change,
}

abbrev pub OptionAll : (Time → Type 0) → Option Time → Type 0
OptionAll P none = Unit
OptionAll P (some t) = P t

-- A row whose times are at most `bound`: the official start does not come before the start, an end
-- does not come before a start, and an official end is the end.
pub record IsNested (bound : Time) (r : Row) : Type 0 where
  pub started : r.time_start ≤ bound
  pub official_start : OptionAll (λ o. (r.time_start ≤ o) × (o ≤ bound)) r.otime_start
  pub ended : OptionAll (λ t. (r.time_start ≤ t) × (t ≤ bound)) r.time_end
  pub official_ended : OptionAll (λ t. OptionAll (λ o. o ≤ t) r.otime_start) r.time_end
  pub official_end :
      (r.otime_end ≡ none)
      ⊎ ((valid r.otime_start ≡ true) × (valid r.otime_end ≡ true) × (r.otime_end ≡ r.time_end))

abbrev pub AllNested : Time → List Row → Type 0
AllNested bound [] = Unit
AllNested bound (r ∷ rs) = IsNested bound r × AllNested bound rs

IsNested-mono : (b c : Time) (r : Row) → b ≤ c → IsNested b r → IsNested c r
IsNested-mono b c r h n = ground arith

opened-IsNested : (id line : ℕ) (s : Status) → IsNested s.time (to_row (new_disturbance id line s))
unfolding to_row new_disturbance
opened-IsNested id line s = ground arith

affected-IsNested :
    (line : ℕ) (s : Status) (r : Row) (d : Disturbance)
    → IsNested s.time r
    → ongoing_in line r ≡ true
    → affect s (of_row r) ≡ some d
    → IsNested s.time (to_row d)
unfolding affect to_row of_row
affected-IsNested line s r d n t e = ground arith

pub AllNested-mono : (b c : Time) (rows : List Row) → b ≤ c → AllNested b rows → AllNested c rows
AllNested-mono b c [] h n = tt
AllNested-mono b c (r ∷ rs) h n = (IsNested-mono b c r h n.0, AllNested-mono b c rs h n.1)

IsNested-of_Has :
    (b : Time) (r : Row) (rows : List Row) → Has r rows → AllNested b rows → IsNested b r
IsNested-of_Has b r [] m n = absurd m
IsNested-of_Has b r (x ∷ rows) (inl e) n = subst (IsNested b) e n.0
IsNested-of_Has b r (x ∷ rows) (inr m) n = IsNested-of_Has b r rows m n.1

upsert-AllNested :
    (b : Time) (r : Row) (rows : List Row)
    → IsNested b r
    → AllNested b rows
    → AllNested b (upsert row_id r rows)
unfolding upsert
upsert-AllNested b r [] h n = (h, tt)
upsert-AllNested b r (x ∷ rows) h n = elim (Bool-cases (x.id == r.id)) [
  | inl q ↦ simp q (h, n.1)
  | inr q ↦ simp q (n.0, upsert-AllNested b r rows h n.1)
]

Change-AllNested :
    {id line : ℕ} {s : Status} {repeated : Bool} {old : Db} {o : Outcome}
    → AllNested s.time old.disturbances
    → Change id line s repeated old o
    → AllNested s.time o.db.disturbances
Change-AllNested n (stopped e q) = rw q n
Change-AllNested n (skipped e d q) = rw q n
Change-AllNested n (calm e up empty q) = rw q n
Change-AllNested n (ignored r e one k q) = rw q n
Change-AllNested {id} {line} {s} {old = old} n (opened e down empty q) =
    rw q (upsert-AllNested s.time _ old.disturbances (opened-IsNested id line s) n)
Change-AllNested {line = line} {s} {old = old} n (affected r d e m t one k q) = rw q (
    upsert-AllNested s.time _ old.disturbances
      (affected-IsNested line s r d (IsNested-of_Has s.time r old.disturbances m n) t k) n)

-- If no time in the table is later than the status, then after AddStatus it is still so, and in
-- every row an official interval lies within the unofficial one: it starts no earlier and, if it
-- ends, ends with it.
pub add_status-AllNested :
    (fails : Op → Bool) (id line : ℕ) (db : Db) (s : Status) (let_notify : Bool) (bound : Time)
    → IsWellFormed db.disturbances
    → bound ≤ s.time
    → AllNested bound db.disturbances
    → AllNested s.time (add_status fails id line db s let_notify).db.disturbances
add_status-AllNested fails id line db s let_notify bound w h n =
    Change-AllNested (AllNested-mono bound s.time db.disturbances h n)
      (add_status-Change fails id line db s let_notify w)
