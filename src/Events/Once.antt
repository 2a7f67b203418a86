-- ===== src/Events/Once.antt =====
-- A player gets at most one reward of a type for an event, whatever happens.
use disturbancesmlx.Prelude.{
  ℕ, ◌+◌, ◌≤◌, String, ◌≡◌, Bool, true, false, ◌&&◌, Option, some, List, arith, str_eq, str_eq_iff,
  ℤ, count, Keyed, upsert-Keyed, ◌==◌, if◌then◌else◌, ◌⊎◌,
}
use disturbancesmlx.Clock.{before}
use disturbancesmlx.Texts.{Text, text_eq, text_eq-eq}
use disturbancesmlx.Events.Reward.{HasNewIds, IsRewarded, register_event_win-IsRewarded, win_row}
use disturbancesmlx.Events.Win.{Surroundings, is_win, register_event_win}
use disturbancesmlx.PosPlay.Transactions.{XpTransaction}

-- The type of a reward for participation, which is not for an event.
abbrev pub participation : String
participation = "DISCORD_PARTICIPATION"

-- The types of the rewards for events.
abbrev pub IsEventType : String → Type 0
IsEventType t = (t ≡ "DISCORD_REACTION_EVENT") ⊎ (t ≡ "DISCORD_CHALLENGE_EVENT")

module _ (marshal : Text → String) (event_id_of : String → Option Text)
    (event_id-marshal : (message : Text) → event_id_of (marshal message) ≡ some message) where
  -- The primary key holds, and no player has two rewards of a type for an event.
  pub record IsOnce (rows : List XpTransaction) : Type 0 where
    pub keyed : Keyed (λ r. r.tx_id) rows
    pub once :
        (player : ℕ) (event_type : String) (message : Text)
        → IsEventType event_type
        → count (is_win marshal event_id_of player event_type message) rows ≤ 1

  one_more :
      (user q : ℕ) (event_type other : String) (message m : Text) (before : ℕ)
      → (user == q && str_eq event_type other && text_eq message m ≡ true → before ≡ 0)
      → before ≤ 1
      → before + (if user == q && str_eq event_type other && text_eq message m then 1 else 0) ≤ 1
  one_more user q event_type other message m before h small = ground arith

  same_wins :
      (user q : ℕ) (event_type other : String) (message m : Text) (rows : List XpTransaction)
      → user == q && str_eq event_type other && text_eq message m ≡ true
      → count (is_win marshal event_id_of user event_type message) rows ≡ 0
      → count (is_win marshal event_id_of q other m) rows ≡ 0
  same_wins user q event_type other message m rows same none_yet =
      let user_same : user ≡ q = ground arith in
      let type_same : event_type ≡ other = (str_eq_iff event_type other).0 (ground arith) in
      let message_same : message ≡ m = text_eq-eq message m (ground arith) in
      rw (← user_same, ← type_same, ← message_same) none_yet

  pub register_event_win-IsOnce :
      (env : Surroundings) (user : ℕ) (message : Text) (xp : ℤ) (event_type : String)
      (rows : List XpTransaction)
      → HasNewIds env
      → IsOnce rows
      → IsOnce (register_event_win marshal event_id_of env user message xp event_type rows).0
  register_event_win-IsOnce env user message xp event_type rows new_ids s = finish _ _ (
      register_event_win-IsRewarded marshal event_id_of event_id-marshal env user message xp
        event_type rows)
    where
      finish :
          (rows' : List XpTransaction) (won : Bool)
          → IsRewarded marshal event_id_of event_id-marshal env user message xp event_type rows
              rows' won
          → IsOnce rows'
      finish rows' false e = rw e s
      finish rows' true (none_yet, (id, u, e)) = rw e (record {
        keyed = upsert-Keyed _ _ rows s.keyed;
        once = λ q other m other_type.
            rw
              (win_row marshal event_id_of event_id-marshal user id env.now xp event_type message
                rows (new_ids rows id u) q other m)
              (one_more user q event_type other message m _
                (λ same. same_wins user q event_type other message m rows same none_yet)
                (s.once q other m other_type));
      })
