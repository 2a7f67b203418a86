-- ===== src/Events/Win.antt =====
-- posplay/posplay.go: RegisterEventWinCallback and RegisterDiscussionParticipationCallback, which
-- give the rewards.
use disturbancesmlx.Prelude.{
  ℕ, String, Bool, true, false, not, ◌&&◌, ◌||◌, Option, none, some, List, str_eq, ℤ, count, ltb,
  ◌==◌, if◌then◌else◌,
}
use disturbancesmlx.Clock.{Time}
use disturbancesmlx.Texts.{Text, text_eq}
use disturbancesmlx.PosPlay.Transactions.{XpTransaction, XpOp, do_xp_transaction}

pub data WinOp : Type 0 where
  begin_win query_win discord_setting app_setting commit_win : WinOp

-- What the database and its surroundings do during a call, for a user.
pub record Surroundings : Type 0 where
  pub fails : ℕ → WinOp → Bool
  pub xp_fails : ℕ → XpOp → Bool
  -- GetPPPlayer finds the user.
  pub is_known : ℕ → Bool
  pub now : Time
  pub week_start : Time
  -- uuid.NewV4
  pub new_uuid : List XpTransaction → Option ℕ

module _ (marshal : Text → String) (event_id_of : String → Option Text) where
  -- What extra::json ->> 'event_id' = ? selects of the rows of the player and of the type.
  unfoldable pub is_win : ℕ → String → Text → XpTransaction → Bool
  is_win player event_type message x =
      x.discord_id == player
      && str_eq x.tx_type event_type
      && elim (event_id_of x.extra) [ none ↦ false | some id ↦ text_eq id message ]

  unfoldable pub register_event_win :
      Surroundings → ℕ → Text → ℤ → String → List XpTransaction → List XpTransaction × Bool
  register_event_win env user message xp_reward event_type rows =
      let rewarded =
        do_xp_transaction (env.xp_fails user) user env.now xp_reward event_type
          (some (marshal message)) false env.week_start (env.new_uuid rows) rows in
      if env.fails user begin_win || not (env.is_known user) || env.fails user query_win
      then (rows, false)
      else if ltb 0 (count (is_win user event_type message) rows)
      then (rows, false)
      else elim rewarded.1 [
        | none ↦ (rows, false)
        | some notice ↦
            if env.fails user discord_setting
              || env.fails user app_setting
              || env.fails user commit_win
            then (rows, false)
            else (rewarded.0, true)
      ]

-- RegisterDiscussionParticipationCallback
unfoldable pub register_discussion_participation :
    Surroundings → ℕ → ℤ → List XpTransaction → List XpTransaction × Bool
register_discussion_participation env user xp_reward rows =
    let rewarded =
      do_xp_transaction (env.xp_fails user) user env.now xp_reward "DISCORD_PARTICIPATION" none true
        env.week_start (env.new_uuid rows) rows in
    if env.fails user begin_win || not (env.is_known user) then (rows, false) else elim rewarded.1 [
      | none ↦ (rows, false)
      | some notice ↦ if env.fails user commit_win then (rows, false) else (rewarded.0, true)
    ]
