-- ===== src/Events/Steps.antt =====
-- Whatever the callbacks keep, the handlers of the bridge keep.
use disturbancesmlx.Prelude.{
  ℕ, String, inl, inr, Option, none, some, List, [], ◌∷◌, Option-cases, not, ◌&&◌, Bool-cases, Bool,
  true, false, ℤ, pos, at_key, ltb, leb, ◌==◌, if◌then◌else◌,
}
use disturbancesmlx.Events.Bridge.{
  stopped, timed_out, WinCallback, win, Reaction, handle_reaction, give_rewards, react, is_indexed,
  sent_to, Ending, timed_out, end_event, comes_from_dm,
}
use disturbancesmlx.Texts.{Text, load, text_eq}
use disturbancesmlx.Events.Model.{
  PosPlayEvent, MultipleChoiceQuizEvent, OngoingEvent, reaction_event, quiz_event,
  multiple_choice_quiz_event, personal_data, PosPlayBridge, QuizEvent, contains_channel,
}
use disturbancesmlx.Events.Messages.{
  judge_answer, Message, Handled, handle_quiz_message, answer_to, handle_message, split_word,
  trigger_of, register_user_activity, note_activity,
}

-- What a call leaves, if it does not panic.
abbrev pub OnSome : {A : Type 0} → (A → Type 0) → Option A → Type 0
OnSome P none = Unit
OnSome P (some a) = P a

module _ {D : Type 0} (Inv : D → Type 0) (on_win : WinCallback D)
    (keeps : (user : ℕ) (event : PosPlayEvent) (event_type : String) (d : D)
      → Inv d
      → Inv (win on_win user event event_type d).0) where
  react-keeps :
      (r : Reaction) (v : Option OngoingEvent) (b : PosPlayBridge) (d : D)
      → Inv d
      → Inv (react on_win r v b d).1
  unfolding react
  react-keeps r none b d i = i
  react-keeps r (some (reaction_event event)) b d i = keeps _ event _ d i
  react-keeps r (some (quiz_event event)) b d i = i
  react-keeps r (some (multiple_choice_quiz_event event)) b d i = i
  react-keeps r (some (personal_data p)) b d i = i

  pub handle_reaction-keeps :
      (r : Reaction) (b : PosPlayBridge) (d : D) → Inv d → Inv (handle_reaction on_win r b d).1
  unfolding handle_reaction
  handle_reaction-keeps r b d i = react-keeps r _ _ d i

  if_keeps :
      (right : Bool) (user : ℕ) (event : PosPlayEvent) (d : D)
      → Inv d
      → Inv (if right then (win on_win user event "DISCORD_CHALLENGE_EVENT" d).0 else d)
  if_keeps false user event d i = i
  if_keeps true user event d i = keeps user event _ d i

  give_rewards-keeps :
      (event : MultipleChoiceQuizEvent) (users : List (ℕ × Text))
      (ongoing : List (Text × OngoingEvent)) (d : D)
      → Inv d
      → OnSome Inv (give_rewards on_win event users ongoing d)
  unfolding give_rewards
  give_rewards-keeps event [] ongoing d i = i
  give_rewards-keeps event ((user, dm) ∷ users) ongoing d i =
      elim (Option-cases (load dm ongoing)) [
        | inl e ↦ rw (give_rewards, e) (give_rewards-keeps event users ongoing d i)
        | inr (reaction_event other, e) ↦ rw (give_rewards, e) tt
        | inr (quiz_event other, e) ↦ rw (give_rewards, e) tt
        | inr (multiple_choice_quiz_event other, e) ↦ rw (give_rewards, e) tt
        | inr (personal_data p, e) ↦ elim (Bool-cases (p.answered && not (is_indexed p))) [
          | inl q ↦ rw (give_rewards, e, q) tt
          | inr q ↦
              rw (give_rewards, e, q)
                (give_rewards-keeps event users ongoing _ (
                  if_keeps (p.answered && p.given_answer == p.of_event.answer) user
                    event.choice_quiz d i))
        ]
      ]

  pub end_event-keeps :
      (ending : Ending) (v : OngoingEvent) (b : PosPlayBridge) (d : D)
      → Inv d
      → OnSome (λ x. Inv x.1) (end_event on_win ending v b d)
  unfolding end_event
  end_event-keeps ending (reaction_event event) b d i = i
  end_event-keeps ending (quiz_event event) b d i = i
  end_event-keeps stopped (multiple_choice_quiz_event event) b d i = i
  end_event-keeps timed_out (multiple_choice_quiz_event event) b d i =
      let given = give_rewards-keeps event (sent_to event.choice_quiz.message_id b) b.ongoing d i in
      elim (Option-cases
        (give_rewards on_win event (sent_to event.choice_quiz.message_id b) b.ongoing d)) [
          | inl e ↦ rw (end_event, e) tt
          | inr (d', e) ↦ rw (end_event, e) (rw e at given)
        ]
  end_event-keeps ending (personal_data p) b d i = i

  judge_answer-keeps :
      (user : ℕ) (event : QuizEvent) (answer user_answer : Text) (d : D)
      → Inv d
      → Inv (judge_answer on_win user event answer user_answer d).0.1
  unfolding judge_answer
  judge_answer-keeps user event answer user_answer d i =
      elim (Bool-cases
        (ltb 0 event.max_attempts && leb event.max_attempts (at_key 0 user event.attempt_tally))) [
          | inl e ↦ rw (judge_answer, e) i
          | inr e ↦ elim (Bool-cases (text_eq answer user_answer)) [
            | inl q ↦ rw (judge_answer, e, q) (keeps user event.quiz _ d i)
            | inr q ↦ rw (judge_answer, e, q) i
          ]
        ]

  module _ {C : Type 0} (present : ℕ → C → Bool) (set_default : ℕ → C → C)
      (on_participation : ℕ → ℤ → D → D × Bool) (fold : Text → Option Text)
      (keeps' : (user : ℕ) (d : D) → Inv d → Inv (on_participation user (pos 1) d).0) where
    handle_quiz_message-keeps :
        (user : ℕ) (trigger : Text) (event : QuizEvent) (rest : Option Text) (b : PosPlayBridge)
        (cache : C) (d : D)
        → Inv d
        → OnSome
            (λ (h : Handled C D). Inv h.rewards)
            (handle_quiz_message present set_default on_participation on_win fold user trigger event
              rest b cache d)
    unfolding handle_quiz_message
    handle_quiz_message-keeps user trigger event rest b cache d i =
        elim (Option-cases (fold event.quiz_answer)) [
          | inl e ↦ rw (handle_quiz_message, e) i
          | inr (answer, e) ↦ elim (Option-cases rest) [
            | inl r ↦ rw (handle_quiz_message, e, r) tt
            | inr (text, r) ↦ elim (Option-cases (fold text)) [
              | inl f ↦ rw (handle_quiz_message, e, r, f) i
              | inr (user_answer, f) ↦
                  rw (handle_quiz_message, e, r, f)
                    (judge_answer-keeps user event answer user_answer d i)
            ]
          ]
        ]

    answer_to-keeps :
        (user : ℕ) (trigger : Text) (v : Option OngoingEvent) (rest : Option Text)
        (b : PosPlayBridge) (cache : C) (d : D)
        → Inv d
        → OnSome
            (λ (h : Handled C D). Inv h.rewards)
            (answer_to present set_default on_participation on_win fold user trigger v rest b cache
              d)
    unfolding answer_to
    answer_to-keeps user trigger none rest b cache d i = i
    answer_to-keeps user trigger (some (quiz_event event)) rest b cache d i =
        handle_quiz_message-keeps user trigger event rest b cache d i
    answer_to-keeps user trigger (some (reaction_event event)) rest b cache d i = i
    answer_to-keeps user trigger (some (multiple_choice_quiz_event event)) rest b cache d i = i
    answer_to-keeps user trigger (some (personal_data p)) rest b cache d i = i

    note_activity-keeps :
        (spam : Bool) (user : ℕ) (cache : C) (d : D)
        → Inv d
        → Inv (note_activity present set_default on_participation spam user cache d).1
    unfolding note_activity register_user_activity
    note_activity-keeps true user cache d i = i
    note_activity-keeps false user cache d i = elim (Bool-cases (present user cache)) [
      | inl e ↦ rw (e, register_user_activity) i
      | inr e ↦ rw (e, register_user_activity) (keeps' user d i)
    ]

    pub handle_message-keeps :
        (m : Message) (b : PosPlayBridge) (cache : C) (d : D)
        → Inv d
        → OnSome
            (λ (h : Handled C D). Inv h.rewards)
            (handle_message present set_default on_participation on_win fold m b cache d)
    unfolding handle_message
    handle_message-keeps m b cache d i =
        let elsewhere =
          note_activity-keeps (contains_channel m.channel b.spam_channels) m.author cache d i in
        elim (Option-cases (comes_from_dm m.channel_in_state m.channel_fetched)) [
          | inl e ↦ rw (e, handle_message) elsewhere
          | inr (false, e) ↦ rw (e, handle_message) elsewhere
          | inr (true, e) ↦
              rw (e, handle_message)
                (answer_to-keeps m.author (trigger_of (split_word m.content).0)
                  (load (trigger_of (split_word m.content).0) b.ongoing) (split_word m.content).1 _
                  cache d i)
        ]
