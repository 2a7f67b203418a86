-- ===== src/Disturbances/Errors.antt =====
-- Errors and notifications of AddStatus.
use disturbancesmlx.Prelude.{
  ℕ, ◌≡◌, refl, ◌⊎◌, inl, inr, Bool, Option, none, some, List, [], ◌∷◌, arith, upsert, Has, ◌==◌,
  Bool-cases, Option-cases, ◌↔◌, false, get_last?,
}
use disturbancesmlx.Disturbances.AddStatus.{
  Op, commit, failed, StatusNotification, Outcome, affect, new_disturbance, save, run_lifecycle,
  begin, query_last, update_status, query_ongoing, new_id, update_disturbance, with_default,
  status_update, add_status,
}
use disturbancesmlx.Disturbances.Change.{disturbance_update_rows}
use disturbancesmlx.Disturbances.Model.{
  Status, Disturbance, Row, Db, to_row, row_id, ongoing_disturbances,
}

Has-upsert : (d : Disturbance) (rows : List Row) → Has (to_row d) (upsert row_id (to_row d) rows)
unfolding upsert
Has-upsert d [] = inl refl
Has-upsert d (r ∷ rows) = elim (Bool-cases (row_id r == row_id (to_row d))) [
  | inl q ↦ rw q (inl refl)
  | inr q ↦ rw q (inr (Has-upsert d rows))
]

-- What a call that sends a notification leaves behind.
abbrev pub Notified : Db → Outcome → Type 0
Notified old o =
    (n : StatusNotification)
    → o.notification ≡ some n
    → ((o.error ≡ none) × Has (to_row n.disturbance) o.db.disturbances)
      ⊎ ((o.error ≡ some (failed commit)) × (o.db ≡ old))

module _ (fails : Op → Bool) (old : Db) where
  save-Notified :
      (let_notify : Bool) (s : Status) (d : Disturbance) (db : Db)
      → Notified old (save fails old let_notify s d db)
  unfolding save
  save-Notified let_notify s d db n e = ground (
    arith,
    disturbance_update_rows d db,
    Has-upsert d db.disturbances,
    Has-upsert n.disturbance db.disturbances,
  )

  run_lifecycle-Notified :
      (id line : ℕ) (let_notify : Bool) (s : Status) (d : Option Disturbance) (db : Db)
      → Notified old (run_lifecycle fails old id line let_notify s d db)
  unfolding run_lifecycle
  run_lifecycle-Notified id line let_notify s none db n e =
      ground (arith, save-Notified let_notify s (new_disturbance id line s) db n)
  run_lifecycle-Notified id line let_notify s (some d) db n e = elim (Option-cases (affect s d)) [
    | inl q ↦ ground arith
    | inr (d', q) ↦ ground (arith, save-Notified let_notify s d' db n)
  ]

-- A notification is sent only for a disturbance that is then in the table, unless the commit
-- itself failed: then the table is as it was, and the notification has been sent all the same.
pub add_status-Notified :
    (fails : Op → Bool) (id line : ℕ) (db : Db) (s : Status) (let_notify : Bool)
    → Notified db (add_status fails id line db s let_notify)
unfolding add_status
add_status-Notified fails id line db s let_notify n e = ground (
  arith,
  run_lifecycle-Notified fails db id line let_notify (with_default s)
      (get_last? (ongoing_disturbances (status_update s db) line)) (status_update s db) n,
)

run_lifecycle_succeeds :
    (fails : Op → Bool) (old : Db) (id line : ℕ) (let_notify : Bool) (s : Status)
    (d : Option Disturbance) (db : Db)
    → ((op : Op) → fails op ≡ false)
    → (run_lifecycle fails old id line let_notify s d db).error ≡ none
unfolding run_lifecycle save
run_lifecycle_succeeds fails old id line let_notify s none db h =
    ground (arith, h new_id, h update_disturbance, h commit)
run_lifecycle_succeeds fails old id line let_notify s (some d) db h =
    elim (Option-cases (affect s d)) [
      | inl q ↦ ground (arith, h commit)
      | inr (d', q) ↦ ground (arith, h update_disturbance, h commit)
    ]

-- When no call fails, AddStatus succeeds exactly on the statuses of its own line.
pub add_status_succeeds :
    (fails : Op → Bool) (id line : ℕ) (db : Db) (s : Status) (let_notify : Bool)
    → ((op : Op) → fails op ≡ false)
    → ((add_status fails id line db s let_notify).error ≡ none) ↔ (s.line ≡ line)
unfolding add_status
add_status_succeeds fails id line db s let_notify h = (
  λ e. ground arith,
  λ e. ground (
    arith,
    h begin,
    h query_last,
    h commit,
    h update_status,
    h query_ongoing,
    run_lifecycle_succeeds fails db id line let_notify (with_default s)
        (get_last? (ongoing_disturbances (status_update s db) line)) (status_update s db) h,
  ),
)
