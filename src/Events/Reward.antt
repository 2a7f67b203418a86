-- ===== src/Events/Reward.antt =====
-- What a call of RegisterEventWinCallback does to the transactions.
use disturbancesmlx.Prelude.{
  ℕ, String, ◌≡◌, refl, inl, inr, Bool, true, false, ◌&&◌, ◌||◌, Option, none, some, List, str_eq,
  ℤ, upsert, count, Fresh, ◌==◌, Bool-cases, Option-cases, ◌+◌, ◌∙◌, not, arith, count-upsert-Fresh,
  ltb, if◌then◌else◌, str_eq_iff,
}
use disturbancesmlx.Clock.{Time}
use disturbancesmlx.Texts.{Text, text_eq, text_eq_refl}
use disturbancesmlx.Events.Win.{
  Surroundings, is_win, begin_win, query_win, discord_setting, app_setting, commit_win,
  register_event_win,
}
use disturbancesmlx.PosPlay.Credit.{Credited, blank-Credited}
use disturbancesmlx.PosPlay.Transactions.{
  XpTransaction, XpOp, begin_xp, read_last, update_xp, commit_xp, XpNotice, last_transaction, blank,
  base_transaction, reward_transaction, do_xp_transaction,
}
use disturbancesmlx.PosPlay.Balance.{IsSmall}

-- A reward that is never merged is a new row.
abbrev pub IsNewRow :
    ℕ
    → Time
    → ℤ
    → String
    → String
    → Option ℕ
    → List XpTransaction
    → List XpTransaction
    → Option XpNotice
    → Type 0
IsNewRow player when value tx_type extra new_uuid rows rows' none = rows' ≡ rows
IsNewRow player when value tx_type extra new_uuid rows rows' (some n) =
    (id : ℕ) × (new_uuid ≡ some id)
    × (rows'
        ≡ upsert (λ r. r.tx_id)
            (reward_transaction when value (some extra) (blank id player tx_type)) rows)

unmerged_base :
    (player : ℕ) (week_start : Time) (tx_type : String) (new_uuid : Option ℕ)
    (rows : List XpTransaction)
    → base_transaction player false week_start tx_type new_uuid rows
      ≡ elim new_uuid [ none ↦ none | some id ↦ some (blank id player tx_type) ]
unfolding base_transaction
unmerged_base player week_start tx_type new_uuid rows =
    elim (Option-cases (last_transaction player rows)) [
      | inl e ↦ rw (e, base_transaction) refl
      | inr (x, e) ↦ rw (e, base_transaction) refl
    ]

pub do_xp_transaction-IsNewRow :
    (fails : XpOp → Bool) (player : ℕ) (when : Time) (value : ℤ) (tx_type extra : String)
    (week_start : Time) (new_uuid : Option ℕ) (rows : List XpTransaction)
    → let (rows', notice) =
        do_xp_transaction fails player when value tx_type
          (some extra)
          false
          week_start
          new_uuid
          rows in
      IsNewRow player when value tx_type extra new_uuid rows rows' notice
unfolding do_xp_transaction
do_xp_transaction-IsNewRow fails player when value tx_type extra week_start none rows =
    elim (Bool-cases (fails begin_xp || fails read_last)) [
      | inl e ↦ rw (e, do_xp_transaction) refl
      | inr e ↦ rw (e, do_xp_transaction, unmerged_base player week_start tx_type none rows) refl
    ]
do_xp_transaction-IsNewRow fails player when value tx_type extra week_start (some id) rows =
    elim (Bool-cases (fails begin_xp || fails read_last)) [
      | inl e ↦ rw (e, do_xp_transaction) refl
      | inr e ↦ elim (Bool-cases (fails update_xp || fails commit_xp)) [
        | inl c ↦
            rw (e, do_xp_transaction, unmerged_base player week_start tx_type (some id) rows, c)
              refl
        | inr c ↦
            rw (e, do_xp_transaction, unmerged_base player week_start tx_type (some id) rows, c)
              (id, refl, refl)
      ]
    ]

-- New identifiers are unused.
abbrev pub HasNewIds : Surroundings → Type 0
HasNewIds env =
    (rows : List XpTransaction) (id : ℕ)
    → env.new_uuid rows ≡ some id
    → Fresh (λ r. r.tx_id) id rows

module _ (marshal : Text → String) (event_id_of : String → Option Text)
    (event_id-marshal : (message : Text) → event_id_of (marshal message) ≡ some message) where
  is_win-reward :
      (q player id : ℕ) (when : Time) (value : ℤ) (event_type other : String) (message m : Text)
      → is_win marshal event_id_of q other m
          (reward_transaction when value (some (marshal message)) (blank id player event_type))
        ≡ (player == q && str_eq event_type other && text_eq message m)
  unfolding is_win reward_transaction blank
  is_win-reward q player id when value event_type other message m =
      rw (event_id-marshal message) refl

  -- The wins of the event after a reward.
  abbrev pub WinOutcome :
      ℕ → Text → ℤ → String → Time → List XpTransaction → List XpTransaction → Bool → Type 0
  WinOutcome user message xp event_type week_start rows rows' false = rows' ≡ rows
  WinOutcome user message xp event_type week_start rows rows' true =
      (count (is_win marshal event_id_of user event_type message) rows ≡ 0)
      × (count (is_win marshal event_id_of user event_type message) rows' ≡ 1)
      × Credited user xp week_start rows rows'

  pub win_row :
      (user id : ℕ) (when : Time) (xp : ℤ) (event_type : String) (message : Text)
      (rows : List XpTransaction)
      → Fresh (λ r. r.tx_id) id rows
      → (q : ℕ) (other : String) (m : Text)
      → count (is_win marshal event_id_of q other m) (
          upsert
            (λ r. r.tx_id)
            (reward_transaction when xp (some (marshal message)) (blank id user event_type))
            rows)
        ≡ count (is_win marshal event_id_of q other m) rows
          + (if user == q && str_eq event_type other && text_eq message m then 1 else 0)
  unfolding reward_transaction blank
  win_row user id when xp event_type message rows fresh q other m =
      count-upsert-Fresh (λ r. r.tx_id) (is_win marshal event_id_of q other m)
        (reward_transaction when xp (some (marshal message)) (blank id user event_type)) rows fresh
      ∙ rw (is_win-reward q user id when xp event_type other message m) refl

  -- What a call leaves, with the reward as the transactions of the database see it.
  abbrev pub IsRewarded :
      Surroundings → ℕ → Text → ℤ → String → List XpTransaction → List XpTransaction → Bool → Type 0
  IsRewarded env user message xp event_type rows rows' false = rows' ≡ rows
  IsRewarded env user message xp event_type rows rows' true =
      (count (is_win marshal event_id_of user event_type message) rows ≡ 0)
      × ((id : ℕ) × (env.new_uuid rows ≡ some id)
          × (rows'
              ≡ upsert (λ r. r.tx_id)
                  (reward_transaction env.now xp (some (marshal message))
                    (blank id user event_type))
                  rows))

  pub register_event_win-IsRewarded :
      (env : Surroundings) (user : ℕ) (message : Text) (xp : ℤ) (event_type : String)
      (rows : List XpTransaction)
      → let (rows', won) =
          register_event_win marshal event_id_of env user message xp event_type rows in
        IsRewarded env user message xp event_type rows rows' won
  unfolding register_event_win
  register_event_win-IsRewarded env user message xp event_type rows =
      let row =
        do_xp_transaction-IsNewRow (env.xp_fails user) user env.now xp event_type (marshal message)
          env.week_start (env.new_uuid rows) rows in
      elim (Bool-cases
        (env.fails user begin_win || not (env.is_known user) || env.fails user query_win)) [
          | inl e ↦ rw (e, register_event_win) refl
          | inr e ↦
              elim (Bool-cases
                (ltb 0 (count (is_win marshal event_id_of user event_type message) rows))) [
                  | inl c ↦ rw (e, register_event_win, c) refl
                  | inr c ↦
                      elim (Option-cases
                        (do_xp_transaction (env.xp_fails user) user env.now xp event_type
                          (some (marshal message)) false env.week_start (env.new_uuid rows)
                          rows).1) [
                            | inl n ↦ rw (e, register_event_win, c, n) refl
                            | inr (notice, n) ↦
                                elim (Bool-cases (
                                  env.fails user discord_setting
                                  || env.fails user app_setting
                                  || env.fails user commit_win)) [
                                    | inl f ↦ rw (e, register_event_win, c, n, f) refl
                                    | inr f ↦
                                        rw (e, register_event_win, c, n, f)
                                          (ground arith, rw n at row)
                                  ]
                          ]
                ]
        ]

  -- A call either returns false and leaves the transactions as they are, or it returns true: the
  -- user had no transaction of the type for the event and has exactly one afterwards, and the
  -- balance of the user grows by the reward while all other balances stay. The new identifier is
  -- to be unused and the values are to be far from the ends of int.
  pub register_event_win_lem :
      (env : Surroundings) (user : ℕ) (message : Text) (xp : ℤ) (event_type : String)
      (rows : List XpTransaction)
      → HasNewIds env
      → IsSmall xp
      → let (rows', won) =
          register_event_win marshal event_id_of env user message xp event_type rows in
        WinOutcome user message xp event_type env.week_start rows rows' won
  register_event_win_lem env user message xp event_type rows new_ids small =
      finish _ _ (register_event_win-IsRewarded env user message xp event_type rows)
    where
      finish :
          (rows' : List XpTransaction) (won : Bool)
          → IsRewarded env user message xp event_type rows rows' won
          → WinOutcome user message xp event_type env.week_start rows rows' won
      finish rows' false e = e
      finish rows' true (none_yet, (id, u, e)) = (
        none_yet,
        rw e (
            win_row user id env.now xp event_type message rows (new_ids rows id u) user event_type
              message
            ∙ rw (none_yet, (str_eq_iff event_type event_type).1 refl, text_eq_refl message)
                (ground arith)),
        rw e (
            blank-Credited user id env.now xp event_type (some (marshal message)) env.week_start
              rows small (new_ids rows id u)),
      )
