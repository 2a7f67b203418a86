-- ===== src/Events/Bridge.antt =====
-- discordbot/posplay.go: HandleReaction, HandleMessage and the end of events. `D` is what the
-- callbacks work on.
use disturbancesmlx.Prelude.{
  ℕ, ◌+◌, String, Bool, true, false, not, ◌&&◌, Option, none, some, List, [], ◌∷◌, ℤ, set_key, ltb,
  ◌==◌, if◌then◌else◌, length,
}
use disturbancesmlx.Texts.{Text, text_eq, load, delete, store}
use disturbancesmlx.Events.Model.{
  PosPlayEvent, MultipleChoiceQuizEvent, PersonalData, OngoingEvent, reaction_event, quiz_event,
  multiple_choice_quiz_event, personal_data, PosPlayBridge, find_choice,
}

-- OnEventWinCallback, which may be nil: the user, the message, the reward and the type of the event.
abbrev pub WinCallback : Type 0 → Type 0
WinCallback D = Option (ℕ → Text → ℤ → String → D → D × Bool)

module _ {D : Type 0} where
  -- e.OnEventWinCallback != nil && e.OnEventWinCallback(...)
  unfoldable pub win : WinCallback D → ℕ → PosPlayEvent → String → D → D × Bool
  win none user event event_type d = (d, false)
  win (some callback) user event event_type d =
      callback user event.message_id event.xp_reward event_type d

-- ComesFromDM: whether the channel that is in the state, or else the one that is fetched, is one of
-- direct messages.
unfoldable pub comes_from_dm : (in_state fetched : Option Bool) → Option Bool
comes_from_dm none fetched = fetched
comes_from_dm (some is_dm) fetched = some is_dm

-- The value of a sync.Map with the IDs of users for keys.
unfoldable pub load_user : {A : Type 0} → ℕ → List (ℕ × A) → Option A
load_user user [] = none
load_user user (x ∷ xs) = if x.0 == user then some x.1 else load_user user xs

-- The users that have the choices of the quiz.
unfoldable pub sent_to : Text → PosPlayBridge → List (ℕ × Text)
sent_to message b = elim (load message b.sent_choices) [ none ↦ [] | some users ↦ users ]

-- sendMultipleChoiceQuizOptions: `is_player` is that PlayerXPInfo has no error, and `dm` the
-- message that SendDMtoUser sends, if it does.
unfoldable pub send_multiple_choice_quiz_options :
    (user : ℕ) (is_player : Bool) (dm : Option Text)
    → MultipleChoiceQuizEvent
    → PosPlayBridge
    → PosPlayBridge
send_multiple_choice_quiz_options user is_player dm event b =
    elim (load_user user (sent_to event.choice_quiz.message_id b)) [
      | some sent ↦ b
      | none ↦ if not is_player then b else elim dm [
        | none ↦ b
        | some m ↦ record b {
          sent_choices =
              store event.choice_quiz.message_id
                (set_key user m (sent_to event.choice_quiz.message_id b)) b.sent_choices;
          ongoing =
              store m
                (personal_data (record { of_event = event; answered = false; given_answer = 0 }))
                b.ongoing;
        }
      ]
    ]

-- The name of the emoji that stands for a choice: the letters start at U+1F1E6.
abbrev pub letter : ℕ → Text
letter i = (127462 + i) ∷ []

-- handleMultipleChoiceQuizAnswer: `dm_sent` is that SendDMtoUser has no error.
unfoldable pub handle_multiple_choice_quiz_answer :
    (message emoji : Text) (dm_sent : Bool) → PersonalData → PosPlayBridge → PosPlayBridge
handle_multiple_choice_quiz_answer message emoji dm_sent data' b =
    if data'.answered
    then b
    else elim (find_choice (λ i choice. text_eq (letter i) emoji) 0 data'.of_event.choices) [
      | none ↦ b
      | some i ↦
          if dm_sent
          then record b {
            ongoing =
                store message (personal_data (record data' { given_answer = i; answered = true }))
                  b.ongoing;
          }
          else b
    ]

-- A reaction, with what Discord and PlayerXPInfo give while it is handled.
pub record Reaction : Type 0 where
  pub reaction_user : ℕ
  pub reaction_message : Text
  pub emoji_name : Text
  pub is_player : Bool
  pub reaction_dm : Option Text

abbrev pub acted_upon_reaction : PosPlayBridge → PosPlayBridge
acted_upon_reaction b = record b { reactions_acted_upon_count = b.reactions_acted_upon_count + 1 }

abbrev pub is_some : {A : Type 0} → Option A → Bool
is_some none = false
is_some (some a) = true

-- Whether the choices have the answers of the user and of the event.
abbrev pub is_indexed : PersonalData → Bool
is_indexed p =
    ltb p.given_answer (length p.of_event.choices)
    && ltb p.of_event.answer (length p.of_event.choices)

module _ {D : Type 0} (on_win : WinCallback D) where
  -- What HandleReaction does with what is under the identifier of the message.
  unfoldable pub react : Reaction → Option OngoingEvent → PosPlayBridge → D → PosPlayBridge × D
  react r none b d = (b, d)
  react r (some (reaction_event event)) b d =
      let won = win on_win r.reaction_user event "DISCORD_REACTION_EVENT" d in
      (if won.1 then acted_upon_reaction b else b, won.0)
  react r (some (quiz_event event)) b d = (b, d)
  react r (some (multiple_choice_quiz_event event)) b d = (
    acted_upon_reaction
        (send_multiple_choice_quiz_options r.reaction_user r.is_player r.reaction_dm event b),
    d,
  )
  react r (some (personal_data p)) b d = (
    acted_upon_reaction (
        handle_multiple_choice_quiz_answer r.reaction_message r.emoji_name (is_some r.reaction_dm) p
          b),
    d,
  )

  -- HandleReaction, which always returns false.
  unfoldable pub handle_reaction : Reaction → PosPlayBridge → D → PosPlayBridge × D
  handle_reaction r b d =
      react r (load r.reaction_message b.ongoing)
        (record b { reactions_handled_count = b.reactions_handled_count + 1 }) d

  -- giveRewards, for the users that are still to come. It reads the personal data under the
  -- identifier of each user's direct message. `none` is a panic: a type
  -- assertion or an index fails.
  unfoldable pub give_rewards :
      MultipleChoiceQuizEvent → List (ℕ × Text) → List (Text × OngoingEvent) → D → Option D
  give_rewards event [] ongoing d = some d
  give_rewards event ((user, dm) ∷ users) ongoing d = elim (load dm ongoing) [
    | none ↦ give_rewards event users ongoing d
    | some v ↦ elim v [
      | reaction_event other ↦ none
      | quiz_event other ↦ none
      | multiple_choice_quiz_event other ↦ none
      | personal_data p ↦
          let d' =
            if p.answered && p.given_answer == p.of_event.answer
            then (win on_win user event.choice_quiz "DISCORD_CHALLENGE_EVENT" d).0
            else d in
          let rest = give_rewards event users ongoing d' in
          if p.answered && not (is_indexed p) then none else rest
    ]
  ]

-- cleanup: what is under the identifiers of the direct messages, and the event, is deleted.
unfoldable pub delete_all :
    List (ℕ × Text) → List (Text × OngoingEvent) → List (Text × OngoingEvent)
delete_all [] ongoing = ongoing
delete_all (x ∷ xs) ongoing = delete_all xs (delete x.1 ongoing)

unfoldable pub cleanup : MultipleChoiceQuizEvent → PosPlayBridge → PosPlayBridge
cleanup event b = record b {
  ongoing =
      delete event.choice_quiz.message_id
        (delete_all (sent_to event.choice_quiz.message_id b) b.ongoing);
}

-- Why the goroutine of an event ends: it is told to stop, or the time is over.
pub data Ending : Type 0 where
  stopped timed_out : Ending

module _ {D : Type 0} (on_win : WinCallback D) where
  -- The goroutine of an event: `none` is a panic.
  unfoldable pub end_event : Ending → OngoingEvent → PosPlayBridge → D → Option (PosPlayBridge × D)
  end_event ending (reaction_event event) b d =
      some (record b { ongoing = delete event.message_id b.ongoing }, d)
  end_event ending (quiz_event event) b d =
      some (record b { ongoing = delete event.trigger b.ongoing }, d)
  end_event stopped (multiple_choice_quiz_event event) b d = some (cleanup event b, d)
  end_event timed_out (multiple_choice_quiz_event event) b d =
      elim (give_rewards on_win event (sent_to event.choice_quiz.message_id b) b.ongoing d) [
        | none ↦ none
        | some d' ↦ some (cleanup event b, d')
      ]
  end_event ending (personal_data p) b d = some (b, d)
