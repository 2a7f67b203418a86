-- ===== src/PosPlay/Balance.antt =====
-- The balances of the players, and what writing one row does to them.
use disturbancesmlx.Prelude.{
  ℕ, ◌+◌, ◌^◌, ◌<◌, ◌≡◌, refl, inl, inr, true, false, List, [], ◌∷◌, arith, ℤ, pos, pos_part,
  neg_part, ◌+ℤ◌, int_laws, upsert, Has, Fresh, Keyed, key-ne_of_Fresh, ◌==◌, if◌then◌else◌,
  Bool-cases, String, sym, ap, ◌∙◌, Option,
}
use disturbancesmlx.PosPlay.Transactions.{XpTransaction, add_int, reward_transaction}
use disturbancesmlx.Clock.{Time}

abbrev pub value_for : ℕ → XpTransaction → ℤ
value_for player x = if x.discord_id == player then x.value else pos 0

-- player.XPBalance(tx): the sum over the player's rows, in the range of int.
abbrev pub balance : ℕ → List XpTransaction → ℤ
balance player [] = pos 0
balance player (x ∷ xs) = value_for player x +ℤ balance player xs

-- The values are far enough from the ends of int that adding two does not wrap around.
abbrev pub IsSmall : ℤ → Type 0
IsSmall z = pos_part z + neg_part z < 2 ^ 62

abbrev pub AllSmall : List XpTransaction → Type 0
AllSmall [] = Unit
AllSmall (x ∷ xs) = IsSmall x.value × AllSmall xs

+ℤ_swap : (a b c : ℤ) → a +ℤ (b +ℤ c) ≡ b +ℤ (a +ℤ c)
+ℤ_swap a b c = omega int_laws

+ℤ_assoc : (a b c : ℤ) → (a +ℤ b) +ℤ c ≡ a +ℤ (b +ℤ c)
+ℤ_assoc a b c = omega int_laws

pub add_int_small : (a b : ℤ) → IsSmall a → IsSmall b → add_int a b ≡ a +ℤ b
unfolding ◌+ℤ◌
add_int_small a b h k = ground arith

pub balance-upsert-Fresh :
    (p : ℕ) (x : XpTransaction) (rows : List XpTransaction)
    → Fresh (λ r. r.tx_id) x.tx_id rows
    → balance p (upsert (λ r. r.tx_id) x rows) ≡ value_for p x +ℤ balance p rows
unfolding upsert
balance-upsert-Fresh p x [] h = refl
balance-upsert-Fresh p x (y ∷ rows) h = elim (Bool-cases (y.tx_id == x.tx_id)) [
  | inl q ↦ absurd (h.0 (ground arith))
  | inr q ↦
      rw (q, balance-upsert-Fresh p x rows h.1)
        (+ℤ_swap (value_for p y) (value_for p x) (balance p rows))
]

pub balance-upsert_replace :
    (p : ℕ) (x' x : XpTransaction) (rows : List XpTransaction)
    → Keyed (λ r. r.tx_id) rows
    → Has x rows
    → x.tx_id ≡ x'.tx_id
    → balance p (upsert (λ r. r.tx_id) x' rows) +ℤ value_for p x ≡ balance p rows +ℤ value_for p x'
unfolding upsert
balance-upsert_replace p x' x [] h m e = absurd m
balance-upsert_replace p x' x (y ∷ rows) h (inl q) e =
    let same : (y.tx_id == x'.tx_id) ≡ true = rw (q, e) (ground arith) in
    rw (same, q) (omega int_laws)
balance-upsert_replace p x' x (y ∷ rows) h (inr m) e =
    let other : (y.tx_id == x'.tx_id) ≡ false =
      ground (arith, key-ne_of_Fresh (λ (r : XpTransaction). r.tx_id) y.tx_id x rows h.0 m) in
    rw other (
      +ℤ_assoc (value_for p y) (balance p (upsert (λ r. r.tx_id) x' rows)) (value_for p x)
      ∙ ap (◌+ℤ◌ (value_for p y)) (balance-upsert_replace p x' x rows h.1 m e)
      ∙ sym (+ℤ_assoc (value_for p y) (balance p rows) (value_for p x')))

pub +ℤ_cancel : (u v b d : ℤ) → u +ℤ v ≡ b +ℤ (v +ℤ d) → u ≡ d +ℤ b
+ℤ_cancel u v b d h =
    let ups : pos_part (u +ℤ v) ≡ pos_part (b +ℤ (v +ℤ d)) = ap pos_part h in
    let downs : neg_part (u +ℤ v) ≡ neg_part (b +ℤ (v +ℤ d)) = ap neg_part h in
    omega (int_laws, ups, downs)

pub +ℤ_zero : (z : ℤ) → z ≡ z +ℤ pos 0
+ℤ_zero z = omega int_laws

pub zero_+ℤ : (z : ℤ) → pos 0 +ℤ z ≡ z
zero_+ℤ z = omega int_laws

pub value_for-reward_transaction :
    (p : ℕ) (when : Time) (value : ℤ) (extra : Option String) (x : XpTransaction)
    → IsSmall value
    → IsSmall x.value
    → value_for p (reward_transaction when value extra x)
      ≡ value_for p x +ℤ (if p == x.discord_id then value else pos 0)
unfolding reward_transaction
value_for-reward_transaction p when value extra x h k = elim (Bool-cases (x.discord_id == p)) [
  | inl q ↦
      let q' : (p == x.discord_id) ≡ true = ground arith in
      rw (q, q') (add_int_small x.value value k h)
  | inr q ↦ let q' : (p == x.discord_id) ≡ false = ground arith in rw (q, q') (+ℤ_zero (pos 0))
]
