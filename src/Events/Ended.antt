-- ===== src/Events/Ended.antt =====
-- What is left of an event that ended, and which messages make the bot panic.
use disturbancesmlx.Prelude.{
  ℕ, ◌≡◌, ◌∙◌, Bool, false, ◌||◌, none, some, List, [], ◌∷◌, arith, if◌then◌else◌, refl, inl, inr,
  true, ◌&&◌, Option, select, ◌==◌, Option-cases, not, Bool-cases,
}
use disturbancesmlx.Events.Bridge.{
  stopped, timed_out, WinCallback, sent_to, delete_all, cleanup, Ending, end_event, stopped, win,
  is_indexed, give_rewards, timed_out,
}
use disturbancesmlx.Texts.{Text, text_eq, load, delete, load-delete}
use disturbancesmlx.Events.Model.{
  OngoingEvent, reaction_event, quiz_event, multiple_choice_quiz_event, personal_data,
  PosPlayBridge, PosPlayEvent, MultipleChoiceQuizEvent,
}

-- The identifier is of the event, or of the personal data of one of its users.
abbrev pub belongs : Text → List (ℕ × Text) → Text → Bool
belongs k [] message = text_eq message k
belongs k (x ∷ xs) message = text_eq x.1 k || belongs k xs message

load-delete_all :
    (k message : Text) (users : List (ℕ × Text)) (ongoing : List (Text × OngoingEvent))
    → load k (delete message (delete_all users ongoing))
      ≡ (if belongs k users message then none else load k ongoing)
unfolding delete_all
load-delete_all k message [] ongoing = load-delete k message ongoing
load-delete_all k message (x ∷ users) ongoing =
    load-delete_all k message users (delete x.1 ongoing)
    ∙ rw (load-delete k x.1 ongoing) (ground arith)

-- The identifiers that the end of an event removes.
abbrev pub removed : Text → OngoingEvent → PosPlayBridge → Bool
removed k (reaction_event event) b = text_eq event.message_id k
removed k (quiz_event event) b = text_eq event.trigger k
removed k (multiple_choice_quiz_event event) b =
    belongs k (sent_to event.choice_quiz.message_id b) event.choice_quiz.message_id
removed k (personal_data p) b = false

-- What is under the identifier of a direct message makes no panic when the rewards are given.
abbrev pub IsReady : Option OngoingEvent → Type 0
IsReady none = Unit
IsReady (some (reaction_event other)) = ⊥
IsReady (some (quiz_event other)) = ⊥
IsReady (some (multiple_choice_quiz_event other)) = ⊥
IsReady (some (personal_data p)) = p.answered ≡ true → is_indexed p ≡ true

abbrev pub AllReady : List (ℕ × Text) → List (Text × OngoingEvent) → Type 0
AllReady [] ongoing = Unit
AllReady (x ∷ xs) ongoing = IsReady (load x.1 ongoing) × AllReady xs ongoing

-- The personal data says that the user gave the right answer.
abbrev pub is_right : Option OngoingEvent → Bool
is_right none = false
is_right (some (reaction_event other)) = false
is_right (some (quiz_event other)) = false
is_right (some (multiple_choice_quiz_event other)) = false
is_right (some (personal_data p)) = p.answered && p.given_answer == p.of_event.answer

-- The users of a multiple-choice quiz make no panic.
abbrev pub IsEndable : OngoingEvent → PosPlayBridge → Type 0
IsEndable (multiple_choice_quiz_event event) b =
    AllReady (sent_to event.choice_quiz.message_id b) b.ongoing
IsEndable (reaction_event event) b = Unit
IsEndable (quiz_event event) b = Unit
IsEndable (personal_data p) b = Unit

no_panic :
    (answered indexed : Bool)
    → (answered ≡ true → indexed ≡ true)
    → (answered && not indexed) ≡ false
no_panic answered indexed h = ground arith

module _ {D : Type 0} (on_win : WinCallback D) where
  -- The callback, called for the users one after another.
  unfoldable pub win_all : PosPlayEvent → List (ℕ × Text) → D → D
  win_all event [] d = d
  win_all event (x ∷ xs) d = win_all event xs (win on_win x.0 event "DISCORD_CHALLENGE_EVENT" d).0

  give_rewards_lem :
      (event : MultipleChoiceQuizEvent) (users : List (ℕ × Text))
      (ongoing : List (Text × OngoingEvent)) (d : D)
      → AllReady users ongoing
      → give_rewards on_win event users ongoing d
        ≡ some (win_all event.choice_quiz (select (λ x. is_right (load x.1 ongoing)) users) d)
  unfolding give_rewards win_all select
  give_rewards_lem event [] ongoing d ready = refl
  give_rewards_lem event ((user, dm) ∷ users) ongoing d (first, ready) =
      elim (Option-cases (load dm ongoing)) [
        | inl e ↦ rw (give_rewards, e, is_right) (give_rewards_lem event users ongoing d ready)
        | inr (reaction_event other, e) ↦ absurd (rw e at first)
        | inr (quiz_event other, e) ↦ absurd (rw e at first)
        | inr (multiple_choice_quiz_event other, e) ↦ absurd (rw e at first)
        | inr (personal_data p, e) ↦
            let ok = no_panic p.answered (is_indexed p) (rw e at first) in
            elim (Bool-cases (p.answered && p.given_answer == p.of_event.answer)) [
              | inl q ↦
                  rw (give_rewards, e, is_right, ok, q)
                    (give_rewards_lem event users ongoing _ ready)
              | inr q ↦
                  rw (give_rewards, e, is_right, ok, q)
                    (give_rewards_lem event users ongoing d ready)
            ]
      ]

  -- The rewards when the time of an event is over.
  abbrev pub final_rewards : Ending → OngoingEvent → PosPlayBridge → D → D
  final_rewards stopped v b d = d
  final_rewards timed_out (multiple_choice_quiz_event event) b d =
      win_all event.choice_quiz
        (select (λ x. is_right (load x.1 b.ongoing)) (sent_to event.choice_quiz.message_id b)) d
  final_rewards timed_out (reaction_event event) b d = d
  final_rewards timed_out (quiz_event event) b d = d
  final_rewards timed_out (personal_data p) b d = d

  -- What the end of an event leaves.
  abbrev pub EndOutcome :
      Ending → OngoingEvent → PosPlayBridge → D → Option (PosPlayBridge × D) → Type 0
  EndOutcome ending v b d none = ⊥
  EndOutcome ending v b d (some x) =
      ((k : Text) → load k x.0.ongoing ≡ (if removed k v b then none else load k b.ongoing))
      × (x.1 ≡ final_rewards ending v b d)

  -- When the direct messages of a multiple-choice quiz have personal data with answers among its
  -- choices, or nothing, the end of an event does not panic. It removes the event and this personal
  -- data and leaves everything else. If the time is over, the callback is called just for the users
  -- of the quiz whose recorded answer is right, once each and in order, and in all other cases for
  -- no one.
  pub end_event_lem :
      (ending : Ending) (v : OngoingEvent) (b : PosPlayBridge) (d : D)
      → IsEndable v b
      → EndOutcome ending v b d (end_event on_win ending v b d)
  unfolding end_event cleanup
  end_event_lem stopped (reaction_event event) b d ready = (λ k. load-delete k _ b.ongoing, refl)
  end_event_lem timed_out (reaction_event event) b d ready = (λ k. load-delete k _ b.ongoing, refl)
  end_event_lem stopped (quiz_event event) b d ready = (λ k. load-delete k _ b.ongoing, refl)
  end_event_lem timed_out (quiz_event event) b d ready = (λ k. load-delete k _ b.ongoing, refl)
  end_event_lem stopped (multiple_choice_quiz_event event) b d ready =
      (λ k. load-delete_all k event.choice_quiz.message_id _ b.ongoing, refl)
  end_event_lem timed_out (multiple_choice_quiz_event event) b d ready =
      rw
        (
          end_event,
          give_rewards_lem event (sent_to event.choice_quiz.message_id b) b.ongoing d ready,
        )
        (λ k. load-delete_all k event.choice_quiz.message_id _ b.ongoing, refl)
  end_event_lem stopped (personal_data p) b d ready = (λ k. refl, refl)
  end_event_lem timed_out (personal_data p) b d ready = (λ k. refl, refl)
