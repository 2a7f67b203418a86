-- ===== src/Disturbances/Model.antt =====
-- The data of types/status.go, types/source.go and types/disturbance.go, the tables that hold it,
-- and the queries of types/line.go that the disturbance logic makes.
use disturbancesmlx.Prelude.{
  ℕ, Bool, true, false, ◌&&◌, Option, none, some, List, [], ◌∷◌, map, String, str_eq, ◌==◌, ltb,
  if◌then◌else◌, select, sort_by,
}
use disturbancesmlx.Clock.{Time}

-- The parts of the composite message "ML_%s_%s_%s".
pub data Cause : Type 0 where
  signal train power third_party passenger station : Cause

pub data Extent : Type 0 where
  since halted between delayed : Extent

pub data Outlook : Type 0 where
  long_halt long_wait soon under15 over15 : Outlook

-- `unset` is the empty string, which a new status has.
pub data StatusMessageType : Type 0 where
  unset raw_message report_begin report_confirm report_reconfirm report_solved : StatusMessageType
  ml_generic ml_solved ml_closed ml_special : StatusMessageType
  ml_composite : Cause → Extent → Outlook → StatusMessageType

pub record Source : Type 0 where
  pub id : ℕ
  pub name : String
  pub automatic : Bool
  pub official : Bool

-- The line is named by its key.
pub record Status : Type 0 where
  pub id : ℕ
  pub time : Time
  pub line : ℕ
  pub is_downtime : Bool
  pub text : String
  pub source : Source
  pub msg_type : StatusMessageType

pub record Disturbance : Type 0 where
  pub id : ℕ
  pub official : Bool
  pub o_start_time : Time
  pub o_end_time : Time
  pub o_ended : Bool
  pub u_start_time : Time
  pub u_end_time : Time
  pub u_ended : Bool
  pub line : ℕ
  pub description : String
  pub notes : String
  pub statuses : List Status

-- A row of line_disturbance; a NULL is `none`. The rows of the join table and the statuses that
-- they refer to are kept with the row.
pub record Row : Type 0 where
  pub id : ℕ
  pub time_start : Time
  pub time_end : Option Time
  pub otime_start : Option Time
  pub otime_end : Option Time
  pub line : ℕ
  pub description : String
  pub notes : Option String
  pub statuses : List Status

pub record Db : Type 0 where
  pub sources : List Source
  pub statuses : List Status
  pub disturbances : List Row

-- pq.NullTime and sql.NullString
abbrev pub null_if {ℓ} : {A : Type ℓ} → Bool → A → Option A
null_if valid a = if valid then some a else none

abbrev pub valid {ℓ} : {A : Type ℓ} → Option A → Bool
valid none = false
valid (some a) = true

abbrev pub or_zero {ℓ} : {A : Type ℓ} → A → Option A → A
or_zero z none = z
or_zero z (some a) = a

-- The columns that Disturbance.Update writes.
unfoldable pub to_row : Disturbance → Row
to_row d = record {
  id = d.id;
  time_start = d.u_start_time;
  time_end = null_if d.u_ended d.u_end_time;
  otime_start = null_if d.official d.o_start_time;
  otime_end = null_if (d.official && d.o_ended) d.o_end_time;
  line = d.line;
  description = d.description;
  notes = if str_eq d.notes "" then none else some d.notes;
  statuses = d.statuses;
}

abbrev pub by_time : Status → ℕ
by_time s = s.time

-- The disturbance that getDisturbancesWithSelect reads from a row.
unfoldable pub of_row : Row → Disturbance
of_row r = record {
  id = r.id;
  official = valid r.otime_start;
  o_start_time = or_zero 0 r.otime_start;
  o_end_time = or_zero 0 r.otime_end;
  o_ended = valid r.otime_end;
  u_start_time = r.time_start;
  u_end_time = or_zero 0 r.time_end;
  u_ended = valid r.time_end;
  line = r.line;
  description = r.description;
  notes = or_zero "" r.notes;
  statuses = sort_by by_time r.statuses;
}

abbrev pub row_id : Row → ℕ
row_id r = r.id

abbrev pub status_id : Status → ℕ
status_id s = s.id

abbrev pub source_id : Source → ℕ
source_id s = s.id

abbrev pub time_start : Row → ℕ
time_start r = r.time_start

-- WHERE mline = line AND time_end IS NULL
abbrev pub ongoing_in : ℕ → Row → Bool
ongoing_in line r = (r.line == line) && elim r.time_end [ none ↦ true | some t ↦ false ]

-- line.OngoingDisturbances(node, false)
unfoldable pub ongoing_disturbances : Db → ℕ → List Disturbance
ongoing_disturbances db line =
    map of_row (sort_by time_start (select (ongoing_in line) db.disturbances))

-- The most recent status of the line: ORDER BY timestamp DESC LIMIT 1.
unfoldable pub last_status_in : ℕ → List Status → Option Status
last_status_in line [] = none
last_status_in line (s ∷ ss) =
    let rest = last_status_in line ss in
    if s.line == line
    then elim rest [ none ↦ some s | some t ↦ if ltb t.time s.time then some s else some t ]
    else rest

-- line.LastStatus(node)
unfoldable pub last_status : Db → ℕ → Option Status
unfolding last_status_in
last_status db line = last_status_in line db.statuses

-- MAX of a column over the selected rows.
unfoldable pub max_of : (Row → Option ℕ) → List Row → Option ℕ
max_of column [] = none
max_of column (r ∷ rs) =
    let rest = max_of column rs in
    elim (column r) [
      | none ↦ rest
      | some a ↦ elim rest [ none ↦ some a | some b ↦ if ltb a b then some b else some a ]
    ]

abbrev pub column_is : Option ℕ → Option ℕ → Bool
column_is (some a) (some b) = a == b
column_is none b = false
column_is (some a) none = false

abbrev pub started : Row → Option ℕ
started r = some r.time_start

abbrev pub of_line : ℕ → Row → Bool
of_line line r = r.line == line

abbrev pub first_row : List Row → Option Disturbance
first_row [] = none
first_row (r ∷ rs) = some (of_row r)

-- line.LastOngoingDisturbance(node, false): the row's start is the latest of an ongoing one.
unfoldable pub last_ongoing_disturbance : Db → ℕ → Option Disturbance
last_ongoing_disturbance db line =
    let latest = max_of started (select (ongoing_in line) db.disturbances) in
    first_row (select (λ r. r.line == line && column_is (started r) latest) db.disturbances)

-- line.LastDisturbance(node, false): the ongoing one, or else the one with the latest end.
unfoldable pub last_disturbance : Db → ℕ → Option Disturbance
last_disturbance db line = elim (last_ongoing_disturbance db line) [
  | some d ↦ some d
  | none ↦
      let latest = max_of (λ r. r.time_end) (select (of_line line) db.disturbances) in
      first_row (select (λ r. r.line == line && column_is r.time_end latest) db.disturbances)
]
