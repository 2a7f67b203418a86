-- ===== src/Events/Participation.antt =====
-- Rewards of other types, as those for participation, leave the rewards for events alone.
use disturbancesmlx.Prelude.{
  ℕ, String, ◌≡◌, ◌⊎◌, inl, inr, Bool, Option, none, some, List, arith, str_eq_iff, upsert, Has,
  Option-cases, refl, ℤ, Bool-cases, sym, ◌∙◌, true, false, not, ◌||◌, str_eq, Fresh,
  count-upsert-Fresh, count-upsert_replace, upsert-Keyed, subst,
}
use disturbancesmlx.Clock.{Time}
use disturbancesmlx.PosPlay.Transactions.{
  XpTransaction, last_transaction, blank, base_transaction, mergeable, reward_transaction, begin_xp,
  read_last, update_xp, commit_xp, do_xp_transaction, XpOp,
}
use disturbancesmlx.PosPlay.Credit.{base_cases}
use disturbancesmlx.Texts.{Text}
use disturbancesmlx.Events.Once.{participation, IsOnce, IsEventType}
use disturbancesmlx.Events.Reward.{HasNewIds}
use disturbancesmlx.Events.Win.{
  begin_win, commit_win, Surroundings, is_win, register_discussion_participation,
}

base_type :
    (player : ℕ) (attempt : Bool) (week_start : Time) (tx_type : String) (new_uuid : Option ℕ)
    (rows : List XpTransaction) (x : XpTransaction)
    → base_transaction player attempt week_start tx_type new_uuid rows ≡ some x
    → x.tx_type ≡ tx_type
unfolding base_transaction blank
base_type player attempt week_start tx_type none rows x e =
    (str_eq_iff x.tx_type tx_type).0 (ground arith)
base_type player attempt week_start tx_type (some id) rows x e =
    elim (Option-cases (last_transaction player rows)) [
      | inl q ↦ ground arith
      | inr (y, q) ↦ elim (Bool-cases (mergeable attempt week_start tx_type y)) [
        | inl m ↦
            let type_same : y.tx_type ≡ tx_type = (str_eq_iff y.tx_type tx_type).0 (ground arith) in
            ground (arith, type_same)
        | inr m ↦ ground arith
      ]
    ]

-- The rows are unchanged, or one of the type is written.
abbrev pub IsWritten : ℕ → String → Option ℕ → List XpTransaction → List XpTransaction → Type 0
IsWritten player tx_type new_uuid rows rows' =
    (rows' ≡ rows)
    ⊎ ((x : XpTransaction) × (x' : XpTransaction) × (rows' ≡ upsert (λ r. r.tx_id) x' rows)
        × (x'.tx_id ≡ x.tx_id)
        × (x.tx_type ≡ tx_type)
        × (x'.tx_type ≡ tx_type)
        × ((new_uuid ≡ some x.tx_id) ⊎ Has x rows))

written :
    (player : ℕ) (when : Time) (value : ℤ) (extra : Option String) (attempt : Bool)
    (week_start : Time) (tx_type : String) (new_uuid : Option ℕ) (rows : List XpTransaction)
    (x : XpTransaction)
    → base_transaction player attempt week_start tx_type new_uuid rows ≡ some x
    → IsWritten player tx_type new_uuid rows
        (upsert (λ r. r.tx_id) (reward_transaction when value extra x) rows)
unfolding reward_transaction blank
written player when value extra attempt week_start tx_type new_uuid rows x e =
    let type_same = base_type player attempt week_start tx_type new_uuid rows x e in
    inr (
      x,
      reward_transaction when value extra x,
      refl,
      refl,
      type_same,
      type_same,
      elim (base_cases player attempt week_start tx_type new_uuid rows x e) [
        | inl (id, u, q) ↦ inl (rw q u)
        | inr (m, own, later) ↦ inr m
      ],
    )

pub do_xp_transaction-IsWritten :
    (fails : XpOp → Bool) (player : ℕ) (when : Time) (value : ℤ) (tx_type : String)
    (extra : Option String) (attempt : Bool) (week_start : Time) (new_uuid : Option ℕ)
    (rows : List XpTransaction)
    → IsWritten player tx_type new_uuid rows
        (do_xp_transaction fails player when value tx_type extra attempt week_start new_uuid rows).0
unfolding do_xp_transaction
do_xp_transaction-IsWritten fails player when value tx_type extra attempt week_start new_uuid rows =
    elim (Bool-cases (fails begin_xp || fails read_last)) [
      | inl f ↦ rw (f, do_xp_transaction) (inl refl)
      | inr f ↦
          elim (Option-cases (base_transaction player attempt week_start tx_type new_uuid rows)) [
            | inl b ↦ rw (f, do_xp_transaction, b) (inl refl)
            | inr (x, b) ↦ elim (Bool-cases (fails update_xp || fails commit_xp)) [
              | inl c ↦ rw (f, do_xp_transaction, b, c) (inl refl)
              | inr c ↦
                  rw (f, do_xp_transaction, b, c)
                    (written player when value extra attempt week_start tx_type new_uuid rows x b)
            ]
          ]
    ]

pub register_discussion_participation-IsWritten :
    (env : Surroundings) (user : ℕ) (xp : ℤ) (rows : List XpTransaction)
    → IsWritten user participation
        (env.new_uuid rows)
        rows
        (register_discussion_participation env user xp rows).0
unfolding register_discussion_participation
register_discussion_participation-IsWritten env user xp rows =
    let row =
      do_xp_transaction-IsWritten (env.xp_fails user) user env.now xp participation none true
        env.week_start (env.new_uuid rows) rows in
    elim (Bool-cases (env.fails user begin_win || not (env.is_known user))) [
      | inl e ↦ rw (e, register_discussion_participation) (inl refl)
      | inr e ↦
          elim (Option-cases
            (do_xp_transaction (env.xp_fails user) user env.now xp participation none true
              env.week_start (env.new_uuid rows) rows).1) [
                | inl n ↦ rw (e, register_discussion_participation, n) (inl refl)
                | inr (notice, n) ↦ elim (Bool-cases (env.fails user commit_win)) [
                  | inl w ↦ rw (e, register_discussion_participation, n, w) (inl refl)
                  | inr w ↦ rw (e, register_discussion_participation, n, w) row
                ]
              ]
    ]

module _ (marshal : Text → String) (event_id_of : String → Option Text)
    (event_id-marshal : (message : Text) → event_id_of (marshal message) ≡ some message) where
  not_a_win :
      (q : ℕ) (event_type tx_type : String) (m : Text) (x : XpTransaction)
      → IsEventType event_type
      → ¬ IsEventType tx_type
      → x.tx_type ≡ tx_type
      → is_win marshal event_id_of q event_type m x ≡ false
  unfolding is_win
  not_a_win q event_type tx_type m x event other same =
      let differs : str_eq x.tx_type event_type ≡ false =
        elim (Bool-cases (str_eq x.tx_type event_type)) [
          | inl p ↦
              absurd (
                other
                  (subst IsEventType (sym ((str_eq_iff x.tx_type event_type).0 p) ∙ same) event))
          | inr p ↦ p
        ] in
      ground arith

  pub IsWritten-IsOnce :
      (player : ℕ) (tx_type : String) (new_uuid : Option ℕ) (rows rows' : List XpTransaction)
      → ((id : ℕ) → new_uuid ≡ some id → Fresh (λ r. r.tx_id) id rows)
      → ¬ IsEventType tx_type
      → IsOnce marshal event_id_of event_id-marshal rows
      → IsWritten player tx_type new_uuid rows rows'
      → IsOnce marshal event_id_of event_id-marshal rows'
  IsWritten-IsOnce player tx_type new_uuid rows rows' new_ids other s (inl e) = rw e s
  IsWritten-IsOnce player tx_type new_uuid rows rows' new_ids other s
        (inr (x, x', e, same_id, old_type, new_type, inl u)) =
      rw e (record {
        keyed = upsert-Keyed _ _ rows s.keyed;
        once = λ q event_type m event.
            rw
              (
                count-upsert-Fresh (λ r. r.tx_id) (is_win marshal event_id_of q event_type m) x'
                    rows (rw same_id (new_ids x.tx_id u)),
                not_a_win q event_type tx_type m x' event other new_type,
              )
              (omega (arith, s.once q event_type m event));
      })
  IsWritten-IsOnce player tx_type new_uuid rows rows' new_ids other s
        (inr (x, x', e, same_id, old_type, new_type, inr h)) =
      rw e (record {
        keyed = upsert-Keyed _ _ rows s.keyed;
        once = λ q event_type m event.
            let replaced =
              count-upsert_replace (λ r. r.tx_id) (is_win marshal event_id_of q event_type m) x' x
                rows s.keyed h (sym same_id) in
            let replaced' =
              rw
                (
                  not_a_win q event_type tx_type m x event other old_type,
                  not_a_win q event_type tx_type m x' event other new_type,
                )
                at replaced in
            omega (arith, replaced', s.once q event_type m event);
      })

  pub register_discussion_participation-IsOnce :
      (env : Surroundings) (user : ℕ) (xp : ℤ) (rows : List XpTransaction)
      → HasNewIds env
      → IsOnce marshal event_id_of event_id-marshal rows
      → IsOnce marshal event_id_of event_id-marshal
          (register_discussion_participation env user xp rows).0
  register_discussion_participation-IsOnce env user xp rows new_ids s =
      IsWritten-IsOnce user participation (env.new_uuid rows) rows _ (new_ids rows)
        (λ event. elim event [ inl e ↦ cc | inr e ↦ cc ]) s
        (register_discussion_participation-IsWritten env user xp rows)
