-- ===== src/PosPlay/Credit.antt =====
-- What DoXPTransaction does to the balances, and to the rewards of earlier weeks.
use disturbancesmlx.Prelude.{
  ℕ, ◌≤◌, ◌<◌, String, ◌≡◌, refl, sym, ap, ◌∙◌, ◌≢◌, ◌⊎◌, inl, inr, Bool, false, ◌||◌, Option, none,
  some, List, [], ◌∷◌, arith, ℤ, pos, ◌+ℤ◌, upsert, Has, Fresh, Keyed, key-ne_of_Fresh, ◌==◌,
  if◌then◌else◌, Bool-cases, Option-cases,
}
use disturbancesmlx.Clock.{Time}
use disturbancesmlx.PosPlay.Balance.{
  value_for, balance, IsSmall, AllSmall, balance-upsert-Fresh, balance-upsert_replace, +ℤ_cancel,
  zero_+ℤ, value_for-reward_transaction,
}
use disturbancesmlx.PosPlay.Transactions.{
  XpTransaction, XpOp, begin_xp, read_last, update_xp, commit_xp, XpNotice, last_transaction, blank,
  base_transaction, reward_transaction, do_xp_transaction,
}

last_step :
    (player : ℕ) (y x : XpTransaction) (rows : List XpTransaction)
    → last_transaction player (y ∷ rows) ≡ some x
    → ((y ≡ x) × (y.discord_id ≡ player)) ⊎ (last_transaction player rows ≡ some x)
unfolding last_transaction
last_step player y x rows q = ground arith

last_transaction-Has :
    (player : ℕ) (rows : List XpTransaction) (x : XpTransaction)
    → last_transaction player rows ≡ some x
    → Has x rows × (x.discord_id ≡ player)
unfolding last_transaction
last_transaction-Has player [] x q = cc
last_transaction-Has player (y ∷ rows) x q = elim (last_step player y x rows q) [
  | inl (e, own) ↦ (inl e, rw (← e) own)
  | inr e ↦ let (m, own) = last_transaction-Has player rows x e in (inr m, own)
]

AllSmall-Has :
    (x : XpTransaction) (rows : List XpTransaction) → AllSmall rows → Has x rows → IsSmall x.value
AllSmall-Has x [] h m = absurd m
AllSmall-Has x (y ∷ rows) h (inl e) = rw (← e) h.0
AllSmall-Has x (y ∷ rows) h (inr m) = AllSmall-Has x rows h.1 m

base_merged :
    (player : ℕ) (attempt : Bool) (week_start : Time) (tx_type : String) (rows : List XpTransaction)
    (x : XpTransaction)
    → base_transaction player attempt week_start tx_type none rows ≡ some x
    → (last_transaction player rows ≡ some x) × (week_start < x.tx_time)
unfolding base_transaction
base_merged player attempt week_start tx_type rows x q = ground arith

base_fresh :
    (player id : ℕ) (attempt : Bool) (week_start : Time) (tx_type : String)
    (rows : List XpTransaction) (x : XpTransaction)
    → base_transaction player attempt week_start tx_type (some id) rows ≡ some x
    → (x ≡ blank id player tx_type)
      ⊎ ((last_transaction player rows ≡ some x) × (week_start < x.tx_time))
unfolding base_transaction
base_fresh player id attempt week_start tx_type rows x q = ground arith

-- A transaction that is written over is one of this week and of the player.
abbrev pub ThisWeek : ℕ → Time → List XpTransaction → XpTransaction → Type 0
ThisWeek player week_start rows x = Has x rows × (x.discord_id ≡ player) × (week_start < x.tx_time)

pub base_cases :
    (player : ℕ) (attempt : Bool) (week_start : Time) (tx_type : String) (new_uuid : Option ℕ)
    (rows : List XpTransaction) (x : XpTransaction)
    → base_transaction player attempt week_start tx_type new_uuid rows ≡ some x
    → ((id : ℕ) × (new_uuid ≡ some id) × (x ≡ blank id player tx_type))
      ⊎ ThisWeek player week_start rows x
base_cases player attempt week_start tx_type none rows x q =
    let (e, later) = base_merged player attempt week_start tx_type rows x q in
    let (m, own) = last_transaction-Has player rows x e in inr (m, own, later)
base_cases player attempt week_start tx_type (some id) rows x q =
    elim (base_fresh player id attempt week_start tx_type rows x q) [
      | inl e ↦ inl (id, refl, e)
      | inr (e, later) ↦ let (m, own) = last_transaction-Has player rows x e in inr (m, own, later)
    ]

-- The balance of every player after the transaction, and the rows that are not written over.
abbrev pub Credited : ℕ → ℤ → Time → List XpTransaction → List XpTransaction → Type 0
Credited player value week_start rows rows' =
    ((p : ℕ) → balance p rows' ≡ (if p == player then value else pos 0) +ℤ balance p rows)
    × ((x : XpTransaction) → Has x rows → x.tx_time ≤ week_start → Has x rows')

Has-upsert_other :
    (x' x : XpTransaction) (rows : List XpTransaction)
    → Has x rows
    → x.tx_id ≢ x'.tx_id
    → Has x (upsert (λ r. r.tx_id) x' rows)
unfolding upsert
Has-upsert_other x' x [] m h = absurd m
Has-upsert_other x' x (y ∷ rows) (inl e) h =
    let other : (y.tx_id == x'.tx_id) ≡ false = rw e (ground arith) in rw other (inl e)
Has-upsert_other x' x (y ∷ rows) (inr m) h = elim (Bool-cases (y.tx_id == x'.tx_id)) [
  | inl q ↦ rw q (inr m)
  | inr q ↦ rw q (inr (Has-upsert_other x' x rows m h))
]

Keyed-unique :
    (x y : XpTransaction) (rows : List XpTransaction)
    → Keyed (λ r. r.tx_id) rows
    → Has x rows
    → Has y rows
    → x.tx_id ≡ y.tx_id
    → x ≡ y
Keyed-unique x y [] h m n e = absurd m
Keyed-unique x y (z ∷ rows) h (inl p) (inl q) e = sym p ∙ q
Keyed-unique x y (z ∷ rows) h (inl p) (inr n) e = absurd (
    key-ne_of_Fresh (λ (r : XpTransaction). r.tx_id) z.tx_id y rows h.0 n
      (sym e ∙ sym (ap (λ (r : XpTransaction). r.tx_id) p)))
Keyed-unique x y (z ∷ rows) h (inr m) (inl q) e = absurd (
    key-ne_of_Fresh (λ (r : XpTransaction). r.tx_id) z.tx_id x rows h.0 m
      (e ∙ sym (ap (λ (r : XpTransaction). r.tx_id) q)))
Keyed-unique x y (z ∷ rows) h (inr m) (inr n) e = Keyed-unique x y rows h.1 m n e

blank_value :
    (p player id : ℕ) (value : ℤ) (tx_type : String)
    → value_for p (blank id player tx_type) +ℤ (if p == player then value else pos 0)
      ≡ (if p == player then value else pos 0)
unfolding blank
blank_value p player id value tx_type = elim (Bool-cases (player == p)) [
  | inl q ↦ rw q (zero_+ℤ _)
  | inr q ↦ rw q (zero_+ℤ _)
]

pub blank-Credited :
    (player id : ℕ) (when : Time) (value : ℤ) (tx_type : String) (extra : Option String)
    (week_start : Time) (rows : List XpTransaction)
    → IsSmall value
    → Fresh (λ r. r.tx_id) id rows
    → Credited player value week_start rows
        (upsert (λ r. r.tx_id) (reward_transaction when value extra (blank id player tx_type)) rows)
unfolding blank reward_transaction
blank-Credited player id when value tx_type extra week_start rows h fresh = (
  λ p.
      balance-upsert-Fresh p (reward_transaction when value extra (blank id player tx_type)) rows
        fresh
      ∙ ap (λ z. z +ℤ balance p rows)
          (value_for-reward_transaction p when value extra (blank id player tx_type) h (omega arith)
            ∙ blank_value p player id value tx_type),
  λ x m t.
      Has-upsert_other _ x rows m
        (key-ne_of_Fresh (λ (r : XpTransaction). r.tx_id) id x rows fresh m),
)

merge-Credited :
    (player : ℕ) (when : Time) (value : ℤ) (extra : Option String) (week_start : Time)
    (rows : List XpTransaction) (x : XpTransaction)
    → IsSmall value
    → AllSmall rows
    → Keyed (λ r. r.tx_id) rows
    → ThisWeek player week_start rows x
    → Credited player value week_start rows
        (upsert (λ r. r.tx_id) (reward_transaction when value extra x) rows)
unfolding reward_transaction
merge-Credited player when value extra week_start rows x h small keyed (m, own, later) = (
  λ p. +ℤ_cancel _ (value_for p x) (balance p rows) (if p == player then value else pos 0) (
      balance-upsert_replace p (reward_transaction when value extra x) x rows keyed m refl
      ∙ ap (◌+ℤ◌ (balance p rows)) (
          value_for-reward_transaction p when value extra x h (AllSmall-Has x rows small m)
          ∙ ap (λ d. value_for p x +ℤ (if p == d then value else pos 0)) own)),
  λ y n t. Has-upsert_other _ y rows n (λ e.
      let same : y ≡ x = Keyed-unique y x rows keyed n m e in
      let when_same : y.tx_time ≡ x.tx_time = ap (λ (r : XpTransaction). r.tx_time) same in
      omega arith),
)

-- What DoXPTransaction leaves, with its notice if it succeeds.
abbrev pub XpOutcome :
    ℕ → ℤ → Time → List XpTransaction → List XpTransaction → Option XpNotice → Type 0
XpOutcome player value week_start rows rows' none = rows' ≡ rows
XpOutcome player value week_start rows rows' (some n) =
    (n.actual_diff ≡ value) × Credited player value week_start rows rows'

-- When the new identifier is unused and the values are far from the ends of int: either there is an
-- error, no notice is sent and the rows are unchanged, or the player's balance grows by exactly the
-- value, all other balances stay, and every row that is not later than the start of the week is
-- kept as it is, whether the reward was merged into the latest row or not.
pub do_xp_transaction_lem :
    (fails : XpOp → Bool) (player : ℕ) (when : Time) (value : ℤ) (tx_type : String)
    (extra : Option String) (attempt : Bool) (week_start : Time) (new_uuid : Option ℕ)
    (rows : List XpTransaction)
    → IsSmall value
    → AllSmall rows
    → Keyed (λ r. r.tx_id) rows
    → ((id : ℕ) → new_uuid ≡ some id → Fresh (λ r. r.tx_id) id rows)
    → let (rows', notice) =
        do_xp_transaction fails player when value tx_type extra attempt week_start new_uuid rows in
      XpOutcome player value week_start rows rows' notice
unfolding do_xp_transaction
do_xp_transaction_lem fails player when value tx_type extra attempt week_start new_uuid rows h small
      keyed fresh =
    elim (Bool-cases (fails begin_xp || fails read_last)) [
      | inl e ↦ rw (e, do_xp_transaction) refl
      | inr e ↦
          elim (Option-cases (base_transaction player attempt week_start tx_type new_uuid rows)) [
            | inl b ↦ rw (e, do_xp_transaction, b) refl
            | inr (x, b) ↦ elim (Bool-cases (fails update_xp || fails commit_xp)) [
              | inl c ↦ rw (e, do_xp_transaction, b, c) refl
              | inr c ↦
                  rw (e, do_xp_transaction, b, c)
                    (
                      refl,
                      elim (base_cases player attempt week_start tx_type new_uuid rows x b) [
                        | inl (id, u, q) ↦ rw q (
                            blank-Credited player id when value tx_type extra week_start rows h
                              (fresh id u))
                        | inr t ↦
                            merge-Credited player when value extra week_start rows x h small keyed t
                      ],
                    )
            ]
          ]
    ]
