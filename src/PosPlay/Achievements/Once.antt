-- ===== src/PosPlay/Achievements/Once.antt =====
-- An achievement is awarded once, and its reward is paid with the award and never without.
use disturbancesmlx.Prelude.{
  ℕ, String, ◌≡◌, refl, ◌⊎◌, inl, inr, Bool, true, false, ◌&&◌, Option, none, some, List, arith, ℤ,
  pos, negsuc, ◌+ℤ◌, int_laws, Fresh, Keyed, ◌==◌, if◌then◌else◌, Bool-cases, Option-cases, subst,
  ◌∙◌, ◌||◌, [], ap, sym,
}
use disturbancesmlx.Clock.{Time, zero_time}
use disturbancesmlx.PosPlay.Achievements.Award.{
  Achievement, is_zero_ℤ, pay, award, award_if, guarded,
}
use disturbancesmlx.PosPlay.Achievements.Model.{
  GameDb, GameOp, award_xp, find_row, has_achieved, PlayerAchievement, begin_award, update_award,
  read_settings, commit_award, put_row, find_row-put_row, find_achievement, begin_handler,
  commit_handler,
}
use disturbancesmlx.PosPlay.Balance.{balance, IsSmall, AllSmall}
use disturbancesmlx.PosPlay.Credit.{do_xp_transaction_lem, XpOutcome}
use disturbancesmlx.PosPlay.Transactions.{XpTransaction, do_xp_transaction}

-- The property of a result, if there is one.
abbrev pub IfSome : (GameDb → Type 0) → Option GameDb → Type 0
IfSome P none = Unit
IfSome P (some db) = P db

-- The points of everybody can take the reward, and a new transaction gets an unused identifier.
pub record CanPay (reward : ℤ) (new_uuid : Option ℕ) (rows : List XpTransaction) : Type 0 where
  pub small_reward : IsSmall reward
  pub small_rows : AllSmall rows
  pub keyed : Keyed (λ r. r.tx_id) rows
  pub fresh : (id : ℕ) → new_uuid ≡ some id → Fresh (λ r. r.tx_id) id rows

abbrev pub achieved_by : ℕ → Achievement → GameDb → Bool
achieved_by player a db = has_achieved (find_row player a.id db.achievements)

-- From a database in which the player lacks the achievement: the rows of all other pairs are kept,
-- and the player is paid the reward exactly if the achievement is there afterwards.
pub record Stepped (player : ℕ) (a : Achievement) (db db' : GameDb) : Type 0 where
  pub others :
      (p i : ℕ)
      → (p == player && i == a.id) ≡ false
      → find_row p i db'.achievements ≡ find_row p i db.achievements
  pub paid :
      (p : ℕ)
      → balance p db'.xp_rows
        ≡ (if p == player && achieved_by player a db' then a.xp_reward else pos 0)
          +ℤ balance p db.xp_rows

nothing_paid : (z : ℤ) → z ≡ pos 0 +ℤ z
nothing_paid z = omega int_laws

zero_of : (z : ℤ) → is_zero_ℤ z ≡ true → z ≡ pos 0
zero_of (pos n) h = ground arith
zero_of (negsuc n) h = cc

unpaid : (b : Bool) (z : ℤ) (rest : ℤ) → z ≡ pos 0 → rest ≡ (if b then z else pos 0) +ℤ rest
unpaid true z rest e = rw e (nothing_paid rest)
unpaid false z rest e = nothing_paid rest

false-ne_true : ◌≡◌ {A = Bool} false true → ⊥
false-ne_true e = cc

module _ (fails : GameOp → Bool) (new_uuid : Option ℕ) (extra_of : ℕ → String) (player : ℕ)
    (a : Achievement) where
  pay_cases :
      (time : Time) (rows : List XpTransaction)
      → CanPay a.xp_reward new_uuid rows
      → (pay fails new_uuid extra_of player a time rows ≡ none)
        ⊎ ((rows' : List XpTransaction) × (pay fails new_uuid extra_of player a time rows
              ≡ some rows')
            × ((p : ℕ)
                → balance p rows' ≡ (if p == player then a.xp_reward else pos 0) +ℤ balance p rows))
  unfolding pay
  pay_cases time rows can = elim (Bool-cases (is_zero_ℤ a.xp_reward)) [
    | inl z ↦ inr (rows, rw z refl, λ p. unpaid (p == player) a.xp_reward _ (zero_of a.xp_reward z))
    | inr n ↦
        let run =
          do_xp_transaction (λ o. fails (award_xp o)) player time a.xp_reward "ACHIEVEMENT_REWARD"
            (some (extra_of a.id)) false zero_time new_uuid rows in
        let out =
          do_xp_transaction_lem (λ o. fails (award_xp o)) player time a.xp_reward
            "ACHIEVEMENT_REWARD" (some (extra_of a.id)) false zero_time new_uuid rows
            can.small_reward can.small_rows can.keyed can.fresh in
        elim (Option-cases run.1) [
          | inl e ↦ inl (rw (n, e) refl)
          | inr (notice, e) ↦ inr (
            run.0,
            rw (n, e) refl,
            (subst (XpOutcome player a.xp_reward zero_time rows run.0) e out).1.0,
          )
        ]
  ]

  won : Time → PlayerAchievement
  won time = record { player = player; achievement = a.id; achieved = some time; visited = [] }

  -- A row of the pair is written over, or added.
  others_of :
      (x : PlayerAchievement) (rs : List PlayerAchievement)
      → x.player ≡ player
      → x.achievement ≡ a.id
      → (p i : ℕ) → (p == player && i == a.id) ≡ false
      → find_row p i (put_row x rs) ≡ find_row p i rs
  others_of x rs e k p i ne = find_row-put_row p i x rs ∙ (rw (e, k) (ground arith))

  pub pay_row :
      (x : PlayerAchievement) (rs : List PlayerAchievement)
      → x.player ≡ player
      → x.achievement ≡ a.id
      → find_row player a.id (put_row x rs) ≡ some x
  pay_row x rs e k = find_row-put_row player a.id x rs ∙ (rw (e, k) (ground arith))

  paid_winner : (p : ℕ) (b : Bool) → b ≡ true → (p == player) ≡ (p == player && b)
  paid_winner p b e = rw e (ground arith)

  pub award-Stepped :
      (time : Time) (db : GameDb)
      → CanPay a.xp_reward new_uuid db.xp_rows
      → IfSome (Stepped player a db) (award fails new_uuid extra_of player a time db)
  unfolding award won
  award-Stepped time db can = elim (Bool-cases (fails begin_award || fails update_award)) [
    | inl e ↦ rw e tt
    | inr e ↦ elim (pay_cases time db.xp_rows can) [
      | inl q ↦ rw (e, q) tt
      | inr (rows, q, paid) ↦ elim (Bool-cases (fails read_settings || fails commit_award)) [
        | inl c ↦ rw (e, q, c) tt
        | inr c ↦
            rw (e, q, c)
              (record {
                others = others_of (won time) db.achievements refl refl;
                paid = λ p.
                    paid p
                    ∙ ap (λ b. (if b then a.xp_reward else pos 0) +ℤ balance p db.xp_rows)
                        (paid_winner p
                          (has_achieved (find_row player a.id (put_row (won time) db.achievements)))
                          (ap has_achieved (pay_row (won time) db.achievements refl refl)));
              })
      ]
    ]
  ]

  -- After an award that does not fail the player has the achievement.
  pub award_achieves :
      (time : Time) (db : GameDb)
      → IfSome (λ d. achieved_by player a d ≡ true) (award fails new_uuid extra_of player a time db)
  unfolding award won
  award_achieves time db = elim (Bool-cases (fails begin_award || fails update_award)) [
    | inl e ↦ rw e tt
    | inr e ↦ elim (Option-cases (pay fails new_uuid extra_of player a time db.xp_rows)) [
      | inl q ↦ rw (e, q) tt
      | inr (rows, q) ↦ elim (Bool-cases (fails read_settings || fails commit_award)) [
        | inl c ↦ rw (e, q, c) tt
        | inr c ↦ rw (e, q, c) (ap has_achieved (pay_row (won time) db.achievements refl refl))
      ]
    ]
  ]

  pub same-Stepped : (db : GameDb) → achieved_by player a db ≡ false → Stepped player a db db
  same-Stepped db e = record { others = λ p i ne. refl; paid = λ p. rw e (loser p) }
    where
      loser :
          (p : ℕ)
          → balance p db.xp_rows
            ≡ (if p == player && false then a.xp_reward else pos 0) +ℤ balance p db.xp_rows
      loser p = elim (Bool-cases (p == player)) [
        | inl e ↦ rw e (nothing_paid _)
        | inr e ↦ rw e (nothing_paid _)
      ]

  pub award_if-Stepped :
      (earned : Bool) (time : Time) (db : GameDb)
      → CanPay a.xp_reward new_uuid db.xp_rows
      → achieved_by player a db ≡ false
      → IfSome (Stepped player a db) (award_if fails new_uuid extra_of earned player a time db)
  unfolding award_if
  award_if-Stepped true time db can e = award-Stepped time db can
  award_if-Stepped false time db can e = same-Stepped db e

  -- Progress that is stored first changes neither the points nor the rows of others.
  pub progress-Stepped :
      (x : PlayerAchievement) (db : GameDb) (o : Option GameDb)
      → x.player ≡ player
      → x.achievement ≡ a.id
      → IfSome (Stepped player a (record db { achievements = put_row x db.achievements })) o
      → IfSome (Stepped player a db) o
  progress-Stepped x db none e k s = tt
  progress-Stepped x db (some db') e k s = record {
    others = λ p i ne. s.others p i ne ∙ others_of x db.achievements e k p i ne;
    paid = s.paid;
  }

  pub progress_lacks :
      (x : PlayerAchievement) (rs : List PlayerAchievement)
      → x.player ≡ player
      → x.achievement ≡ a.id
      → x.achieved ≡ none
      → has_achieved (find_row player a.id (put_row x rs)) ≡ false
  progress_lacks x rs e k n = rw (pay_row x rs e k) (rw n refl)

  -- What a handler's own part must do for the whole to award at most once.
  abbrev pub BodyStepped : (Option PlayerAchievement → GameDb → Option GameDb) → GameDb → Type 0
  BodyStepped body db =
      (row : Option PlayerAchievement)
      → achieved_by player a db ≡ false
      → IfSome (Stepped player a db) (body row db)

  -- What one event does: nothing if the player has the achievement, else one step.
  pub record Settled (db db' : GameDb) : Type 0 where
    pub once : achieved_by player a db ≡ true → db' ≡ db
    pub step : achieved_by player a db ≡ false → Stepped player a db db'

  pub same-Settled : (db : GameDb) → Settled db db
  same-Settled db = record { once = λ e. refl; step = same-Stepped db }

  pub guarded-Settled :
      (body : Option PlayerAchievement → GameDb → Option GameDb) (db : GameDb)
      → fails find_achievement ≡ false
      → BodyStepped body db
      → Settled db (guarded fails new_uuid extra_of body player a db)
  unfolding guarded
  guarded-Settled body db f b = elim (Bool-cases (fails begin_handler)) [
    | inl g ↦ rw g (same-Settled db)
    | inr g ↦ elim (Bool-cases (achieved_by player a db)) [
      | inl e ↦ rw (g, f, e) (same-Settled db)
      | inr e ↦
          let row = find_row player a.id db.achievements in
          elim (Option-cases (body row db)) [
            | inl n ↦ rw (g, f, e, n) (same-Settled db)
            | inr (db', y) ↦ elim (Bool-cases (fails commit_handler)) [
              | inl c ↦ rw (g, f, e, y, c) (same-Settled db)
              | inr c ↦
                  rw (g, f, e, y, c)
                    (record {
                      once = λ t. absurd (false-ne_true (sym e ∙ t));
                      step = λ t. subst (IfSome (Stepped player a db)) y (b row e);
                    })
            ]
          ]
    ]
  ]
