-- ===== src/PosPlay/Transactions.antt =====
-- posplay.DoXPTransaction, with the query and the write that it makes.
use disturbancesmlx.Prelude.{
  ℕ, String, Bool, ◌&&◌, ◌||◌, Option, none, some, List, [], ◌∷◌, str_eq, ℤ, pos, ◌+ℤ◌, upsert,
  ◌==◌, if◌then◌else◌,
}
use disturbancesmlx.Clock.{Time, zero_time, after, before, wrap_int64}

-- types.PPXPTransaction
pub record XpTransaction : Type 0 where
  pub tx_id : ℕ
  pub discord_id : ℕ
  pub tx_time : Time
  pub value : ℤ
  pub tx_type : String
  pub extra : String

pub data XpOp : Type 0 where
  begin_xp read_last update_xp commit_xp : XpOp

-- What is sent to the serial processor once the transaction is committed.
pub record XpNotice : Type 0 where
  pub noticed_id : ℕ
  pub actual_diff : ℤ

-- player.XPTransactionsLimit(tx, 1): the latest row of the player. Of rows of the same time, SQL
-- gives any; here it is the first.
unfoldable pub last_transaction : ℕ → List XpTransaction → Option XpTransaction
last_transaction player [] = none
last_transaction player (x ∷ xs) =
    let rest = last_transaction player xs in
    if x.discord_id == player
    then elim rest [
      | none ↦ some x
      | some y ↦ if before x.tx_time y.tx_time then some y else some x
    ]
    else rest

-- The latest row can take the new reward in.
abbrev pub mergeable : Bool → Time → String → XpTransaction → Bool
mergeable attempt week_start tx_type last =
    attempt && str_eq last.tx_type tx_type && after last.tx_time week_start

-- int addition
abbrev pub add_int : ℤ → ℤ → ℤ
add_int a b = wrap_int64 (a +ℤ b)

unfoldable pub blank : ℕ → ℕ → String → XpTransaction
blank id player tx_type = record {
  tx_id = id;
  discord_id = player;
  tx_time = zero_time;
  value = pos 0;
  tx_type = tx_type;
  extra = "";
}

-- The transaction that is written: the latest one, or a blank one with a new identifier, which
-- uuid.NewV4 may fail to give.
unfoldable pub base_transaction :
    ℕ → Bool → Time → String → Option ℕ → List XpTransaction → Option XpTransaction
base_transaction player attempt week_start tx_type new_uuid rows =
    let fresh : Option XpTransaction = elim new_uuid [
      | none ↦ none
      | some id ↦ some (blank id player tx_type)
    ] in
    elim (last_transaction player rows) [
      | none ↦ fresh
      | some last ↦ if mergeable attempt week_start tx_type last then some last else fresh
    ]

unfoldable pub reward_transaction : Time → ℤ → Option String → XpTransaction → XpTransaction
reward_transaction when value extra x = record x {
  tx_time = when;
  value = add_int x.value value;
  extra = elim extra [ none ↦ x.extra | some text ↦ text ];
}

-- DoXPTransaction(node, player, when, value, txType, extra, attemptMerge): the rows, and the notice
-- if there is no error. `extra` is the text that MarshalExtra stores.
unfoldable pub do_xp_transaction :
    (fails : XpOp → Bool)
    → (player : ℕ) (when : Time) (value : ℤ) (tx_type : String) (extra : Option String)
    → (attempt : Bool) (week_start : Time) (new_uuid : Option ℕ) → List XpTransaction
    → List XpTransaction × Option XpNotice
do_xp_transaction fails player when value tx_type extra attempt week_start new_uuid rows =
    if fails begin_xp || fails read_last
    then (rows, none)
    else elim (base_transaction player attempt week_start tx_type new_uuid rows) [
      | none ↦ (rows, none)
      | some x ↦ if fails update_xp || fails commit_xp then (rows, none) else (
        upsert (λ r. r.tx_id) (reward_transaction when value extra x) rows,
        some (record { noticed_id = x.tx_id; actual_diff = value }),
      )
    ]
