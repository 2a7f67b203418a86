-- ===== src/Disturbances/AddStatus.antt =====
-- Line.AddStatus of types/line.go with Status.Update and Disturbance.Update, and handleNewStatus
-- of scrapers.go. Each call into the database is an operation that may fail; on every error the
-- deferred rollback undoes what the transaction has written.
use disturbancesmlx.Prelude.{
  ℕ, Bool, true, false, not, ◌&&◌, Option, none, some, List, [], ◌∷◌, ◌++◌, str_eq, ◌==◌,
  if◌then◌else◌, upsert, get_last?,
}
use disturbancesmlx.Clock.{zero_time}
use disturbancesmlx.Disturbances.Model.{
  Status, Disturbance, Db, StatusMessageType, unset, raw_message, to_row, row_id, status_id,
  source_id, ongoing_disturbances, last_status,
}

-- The calls that may fail, one for each place in the code.
pub data Op : Type 0 where
  begin query_last update_status query_ongoing new_id update_disturbance commit : Op

pub data Error : Type 0 where
  line_mismatch : Error
  failed : Op → Error

-- What is sent on the channel NewStatusNotification.
pub record StatusNotification : Type 0 where
  pub disturbance : Disturbance
  pub status : Status

pub record Outcome : Type 0 where
  pub db : Db
  pub notification : Option StatusNotification
  pub error : Option Error

-- `==` of Go on two booleans.
abbrev pub same : Bool → Bool → Bool
same true b = b
same false b = not b

-- `if status.MsgType == ""` of Status.Update.
abbrev pub default_type : StatusMessageType → StatusMessageType
default_type unset = raw_message
default_type t = t

-- Status.Update gives an empty message type its default in the object as well.
abbrev pub with_default : Status → Status
with_default s = record s { msg_type = default_type s.msg_type }

-- Status.Update: the source first, then the status.
unfoldable pub status_update : Status → Db → Db
status_update s db = record db {
  sources = upsert source_id s.source db.sources;
  statuses = upsert status_id (with_default s) db.statuses;
}

-- The loop of Disturbance.Update over the statuses.
unfoldable pub statuses_update : List Status → Db → Db
statuses_update [] db = db
statuses_update (s ∷ ss) db = statuses_update ss (status_update s db)

-- Disturbance.Update
unfoldable pub disturbance_update : Disturbance → Db → Db
disturbance_update d db =
    statuses_update d.statuses
      (record db { disturbances = upsert row_id (to_row d) db.disturbances })

-- The test that keeps a repeated status out.
unfoldable pub is_duplicate : Option Status → Status → Bool
is_duplicate none s = false
is_duplicate (some l) s =
    same l.is_downtime s.is_downtime
    && str_eq l.text s.text
    && same l.source.official s.source.official

abbrev append_status : Status → Disturbance → Disturbance
append_status s d = record d { statuses = d.statuses ++ s ∷ [] }

-- A status that says the line works again. `none`: the disturbance is left as it is.
close_with : Status → Disturbance → Option Disturbance
close_with s d =
    if s.source.official && not d.official
    then none
    else if not s.source.official && d.official
    then some d
    else if s.source.official && d.official
    then some
        (record d { o_end_time = s.time; o_ended = true; u_end_time = s.time; u_ended = true })
    else some (record d { u_end_time = s.time; u_ended = true })

-- What a status does to the ongoing disturbance.
unfoldable pub affect : Status → Disturbance → Option Disturbance
unfolding close_with
affect s d =
    if not s.is_downtime
    then elim (close_with s d) [ none ↦ none | some d' ↦ some (append_status s d') ]
    else if not d.official && s.source.official
    then some (append_status s (record d { official = true; o_start_time = s.time }))
    else some (append_status s d)

-- The disturbance that a downtime status opens.
unfoldable pub new_disturbance : ℕ → ℕ → Status → Disturbance
new_disturbance id line s = record {
  id = id;
  official = s.source.official;
  o_start_time = if s.source.official then s.time else zero_time;
  o_end_time = zero_time;
  o_ended = false;
  u_start_time = s.time;
  u_end_time = zero_time;
  u_ended = false;
  line = line;
  description = s.text;
  notes = "";
  statuses = s ∷ [];
}

-- The end of a transaction: what was written is kept if it is committed, and tx.Rollback, which is
-- deferred, undoes it otherwise.
abbrev pub tx_end : Bool → Db → Db → Option StatusNotification → Option Error → Outcome
tx_end committed old written n e = record {
  db = if committed then written else old;
  notification = n;
  error = e;
}

-- `old` is the state that the transaction begins with; each step is given what was written so far.
module _ (fails : Op → Bool) (old : Db) where
  -- `return err`, on which the deferred rollback runs.
  abbrev pub rolled_back : Db → Option StatusNotification → Error → Outcome
  rolled_back written n e = tx_end false old written n (some e)

  abbrev pub tx_commit : Option StatusNotification → Db → Outcome
  tx_commit n written =
      if fails commit then rolled_back written n (failed commit) else tx_end true old written n none

  -- Disturbance.Update, the blocking send and tx.Commit, in this order.
  unfoldable pub save : Bool → Status → Disturbance → Db → Outcome
  save let_notify s d db =
      let written = disturbance_update d db in
      if fails update_disturbance
      then rolled_back written none (failed update_disturbance)
      else tx_commit (if let_notify then some (record { disturbance = d; status = s }) else none)
          written

  -- `ongoing` is the last of the ongoing disturbances.
  unfoldable pub run_lifecycle : ℕ → ℕ → Bool → Status → Option Disturbance → Db → Outcome
  run_lifecycle id line let_notify s (some d) db = elim (affect s d) [
    | none ↦ tx_commit none db
    | some d' ↦ save let_notify s d' db
  ]
  run_lifecycle id line let_notify s none db =
      if s.is_downtime
      then (if fails new_id
          then rolled_back db none (failed new_id)
          else save let_notify s (new_disturbance id line s) db)
      else tx_commit none db

-- line.AddStatus(node, status, letNotify); `id` is the UUID that a new disturbance would get.
unfoldable pub add_status : (Op → Bool) → ℕ → ℕ → Db → Status → Bool → Outcome
add_status fails id line db s let_notify =
    if not (s.line == line)
    then tx_end false db db none (some line_mismatch)
    else if fails begin
    then tx_end false db db none (some (failed begin))
    else if is_duplicate (if fails query_last then none else last_status db line) s
    then tx_commit fails db none db
    else if fails update_status
    then rolled_back fails db (status_update s db) none (failed update_status)
    else if fails query_ongoing
    then rolled_back fails db (status_update s db) none (failed query_ongoing)
    else run_lifecycle fails db id line let_notify (with_default s)
        (get_last? (ongoing_disturbances (status_update s db) line)) (status_update s db)

-- handleNewStatus of scrapers.go: AddStatus within a transaction of its own, whose start and commit
-- may fail.
unfoldable pub handle_new_status : (Op → Bool) → Bool → Bool → ℕ → Status → Bool → Db → Db
handle_new_status fails begin_fails commit_fails id s allow_notify db =
    if begin_fails
    then db
    else (let o = add_status fails id s.line db s allow_notify in
        elim o.error [ some e ↦ db | none ↦ if commit_fails then db else o.db ])
