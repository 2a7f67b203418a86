-- ===== src/Events/Reachable.antt =====
-- What the bridge and the transactions can come to, by reactions, messages and events that start
-- and end in any order.
use disturbancesmlx.Prelude.{
  ℕ, ◌≤◌, String, ◌≡◌, Bool, true, Option, some, List, [], arith, ℤ, pos, count, Fresh,
}
use disturbancesmlx.Events.Bridge.{WinCallback, win, Reaction, handle_reaction, Ending, end_event}
use disturbancesmlx.Texts.{Text}
use disturbancesmlx.Events.Messages.{Message, Handled, handle_message}
use disturbancesmlx.Events.Model.{
  PosPlayEvent, OngoingEvent, PosPlayBridge, start_reaction_event, start_quiz_event,
  start_multiple_choice_quiz_event, mark_spam_channel, unmark_spam_channel,
}
use disturbancesmlx.Events.Once.{IsOnce, register_event_win-IsOnce, IsEventType}
use disturbancesmlx.Events.Participation.{
  register_discussion_participation-IsOnce, do_xp_transaction-IsWritten, IsWritten-IsOnce,
}
use disturbancesmlx.Events.Reward.{HasNewIds}
use disturbancesmlx.Events.Steps.{handle_reaction-keeps, end_event-keeps, handle_message-keeps}
use disturbancesmlx.Events.Win.{
  Surroundings, is_win, register_event_win, register_discussion_participation,
}
use disturbancesmlx.PosPlay.Transactions.{XpTransaction, XpOp, do_xp_transaction}
use disturbancesmlx.Clock.{Time}

-- PosPlayBridge with no events, as it is at the start.
abbrev pub new_bridge : PosPlayBridge
new_bridge = record {
  ongoing = [];
  sent_choices = [];
  spam_channels = [];
  reactions_handled_count = 0;
  reactions_acted_upon_count = 0;
  handled_count = 0;
  acted_upon_count = 0;
}

module _ (marshal : Text → String) (event_id_of : String → Option Text)
    (fold : Text → Option Text) where
  -- The callback that the program sets.
  abbrev pub event_win : Surroundings → WinCallback (List XpTransaction)
  event_win env = some (register_event_win marshal event_id_of env)

  -- HandleMessage with that callback, where the cache of participation has the author or not.
  abbrev pub message_handled :
      Surroundings
      → Bool
      → Message
      → PosPlayBridge
      → List XpTransaction
      → Option (Handled Bool (List XpTransaction))
  message_handled env active m b rows =
      handle_message (λ user cache. cache) (λ user cache. true)
        (register_discussion_participation env) (event_win env) fold m b active rows

  -- Each step may meet other surroundings; the rest of the program gives rewards of other types. Any event may end, also one that another has replaced.
  pub data Reachable : PosPlayBridge → List XpTransaction → Type 0 where
    at_start : Reachable new_bridge []
    reaction_started :
        {b : PosPlayBridge} {rows : List XpTransaction} (message : Option Text) (xp : ℤ)
        → Reachable b rows
        → Reachable (start_reaction_event message xp b) rows
    quiz_started :
        {b : PosPlayBridge} {rows : List XpTransaction} (message : Option Text)
        (trigger answer : Text) (attempts xp : ℤ)
        → Reachable b rows
        → Reachable (start_quiz_event message trigger answer attempts xp b) rows
    choices_started :
        {b : PosPlayBridge} {rows : List XpTransaction} (message : Option Text)
        (choices : List Text) (answer : ℕ) (xp : ℤ)
        → Reachable b rows
        → Reachable (start_multiple_choice_quiz_event message choices answer xp b) rows
    marked :
        {b : PosPlayBridge} {rows : List XpTransaction} (channel : ℕ)
        → Reachable b rows
        → Reachable (mark_spam_channel channel b) rows
    unmarked :
        {b : PosPlayBridge} {rows : List XpTransaction} (channel : ℕ)
        → Reachable b rows
        → Reachable (unmark_spam_channel channel b) rows
    reacted :
        {b : PosPlayBridge} {rows : List XpTransaction} (env : Surroundings) (r : Reaction)
        → HasNewIds env
        → Reachable b rows
        → Reachable
            (handle_reaction (event_win env) r b rows).0
            (handle_reaction (event_win env) r b rows).1
    messaged :
        {b : PosPlayBridge} {rows : List XpTransaction} (env : Surroundings) (active : Bool)
        (m : Message) (h : Handled Bool (List XpTransaction))
        → HasNewIds env
        → message_handled env active m b rows ≡ some h
        → Reachable b rows
        → Reachable h.bridge h.rewards
    rewarded_otherwise :
        {b : PosPlayBridge} {rows : List XpTransaction} (fails : XpOp → Bool) (player : ℕ)
        (when : Time) (value : ℤ) (tx_type : String) (extra : Option String) (attempt : Bool)
        (week_start : Time) (new_uuid : Option ℕ)
        → ¬ IsEventType tx_type
        → ((id : ℕ) → new_uuid ≡ some id → Fresh (λ r. r.tx_id) id rows)
        → Reachable b rows
        → Reachable b
            (do_xp_transaction fails player when value tx_type extra attempt week_start new_uuid
              rows).0
    ended :
        {b b' : PosPlayBridge} {rows rows' : List XpTransaction} (env : Surroundings)
        (ending : Ending) (event : OngoingEvent)
        → HasNewIds env
        → end_event (event_win env) ending event b rows ≡ some (b', rows')
        → Reachable b rows
        → Reachable b' rows'

  module _
      (event_id-marshal : (message : Text) → event_id_of (marshal message) ≡ some message) where
    win-IsOnce :
        (env : Surroundings)
        → HasNewIds env
        → (user : ℕ) (event : PosPlayEvent) (event_type : String) (rows : List XpTransaction)
        → IsOnce marshal event_id_of event_id-marshal rows
        → IsOnce marshal event_id_of event_id-marshal
            (win (event_win env) user event event_type rows).0
    unfolding win
    win-IsOnce env new_ids user event event_type rows i =
        register_event_win-IsOnce marshal event_id_of event_id-marshal env user event.message_id
          event.xp_reward event_type rows new_ids i

    Reachable-IsOnce :
        {b : PosPlayBridge} {rows : List XpTransaction}
        → Reachable b rows
        → IsOnce marshal event_id_of event_id-marshal rows
    Reachable-IsOnce at_start = record {
      keyed = tt;
      once = λ player event_type message other. omega arith;
    }
    Reachable-IsOnce (reaction_started message xp r) = Reachable-IsOnce r
    Reachable-IsOnce (quiz_started message trigger answer attempts xp r) = Reachable-IsOnce r
    Reachable-IsOnce (choices_started message choices answer xp r) = Reachable-IsOnce r
    Reachable-IsOnce (marked channel r) = Reachable-IsOnce r
    Reachable-IsOnce (unmarked channel r) = Reachable-IsOnce r
    Reachable-IsOnce (reacted {b} {rows} env x new_ids r) =
        handle_reaction-keeps (IsOnce marshal event_id_of event_id-marshal) (event_win env)
          (win-IsOnce env new_ids) x b rows (Reachable-IsOnce r)
    Reachable-IsOnce (messaged {b} {rows} env active m h new_ids e r) =
        let kept =
          handle_message-keeps (IsOnce marshal event_id_of event_id-marshal) (event_win env)
            (win-IsOnce env new_ids) (λ user cache. cache) (λ user cache. true)
            (register_discussion_participation env) fold
            (λ user rows i.
              register_discussion_participation-IsOnce marshal event_id_of event_id-marshal env user
                (pos 1) rows new_ids i)
            m b active rows (Reachable-IsOnce r) in
        rw e at kept
    Reachable-IsOnce
          (rewarded_otherwise {b} {rows} fails player when value tx_type extra attempt week_start
            new_uuid other new_ids r) =
        IsWritten-IsOnce marshal event_id_of event_id-marshal player tx_type new_uuid rows _ new_ids
          other (Reachable-IsOnce r)
          (do_xp_transaction-IsWritten fails player when value tx_type extra attempt week_start
            new_uuid rows)
    Reachable-IsOnce (ended {b} {b'} {rows} {rows'} env ending event new_ids e r) =
        let kept =
          end_event-keeps (IsOnce marshal event_id_of event_id-marshal) (event_win env)
            (win-IsOnce env new_ids) ending event b rows (Reachable-IsOnce r) in
        rw e at kept

    -- Whatever reactions and messages come, however events start and end, whatever other rewards
    -- are given and whatever calls of the database fail, a player never has more than one reward of
    -- a type for an event of Discord. New identifiers are to be unused, and the text that is stored
    -- for an event is to give its identifier back.
    pub Reachable-once :
        {b : PosPlayBridge} {rows : List XpTransaction} (player : ℕ) (event_type : String)
        (message : Text)
        → Reachable b rows
        → IsEventType event_type
        → count (is_win marshal event_id_of player event_type message) rows ≤ 1
    Reachable-once player event_type message r other =
        (Reachable-IsOnce r).once player event_type message other
