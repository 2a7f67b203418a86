-- ===== src/Events/Managed.antt =====
-- The bridges that the commands and the handlers lead to, and how their events end.
use disturbancesmlx.Prelude.{ℕ, ◌≡◌, refl, Bool, true, Option, some, List, ℤ}
use disturbancesmlx.Events.Bridge.{
  WinCallback, sent_to, Reaction, handle_reaction, Ending, end_event,
}
use disturbancesmlx.Events.Ended.{EndOutcome, end_event_lem}
use disturbancesmlx.Events.Messages.{Message, Handled, handle_message}
use disturbancesmlx.Events.Model.{
  OngoingEvent, PosPlayBridge, start_reaction_event, start_quiz_event,
  start_multiple_choice_quiz_event, checked_answer,
}
use disturbancesmlx.Events.Reachable.{new_bridge}
use disturbancesmlx.Events.Safe.{
  IsSafe, IsNoDm, start-IsSafe, choices_started-IsSafe, IsSafe-IsEndable,
}
use disturbancesmlx.Events.SafeSteps.{
  same-IsSafe, checked_answer_bound, react-IsSafe, handled-IsSafe, end_event-IsSafe,
}
use disturbancesmlx.Texts.{Text, load}

module _ {D : Type 0} (on_win : WinCallback D) (on_participation : ℕ → ℤ → D → D × Bool)
    (fold : Text → Option Text) where
  -- Events start under identifiers of no direct message, and multiple-choice quizzes with an answer
  -- that the command accepts. The callbacks may be called on anything.
  pub data Managed : PosPlayBridge → Type 0 where
    at_start : Managed new_bridge
    reaction_started :
        {b : PosPlayBridge} (message : Text) (xp : ℤ)
        → Managed b
        → IsNoDm message b
        → Managed (start_reaction_event (some message) xp b)
    quiz_started :
        {b : PosPlayBridge} (message trigger answer : Text) (attempts xp : ℤ)
        → Managed b
        → IsNoDm trigger b
        → Managed (start_quiz_event (some message) trigger answer attempts xp b)
    choices_started :
        {b : PosPlayBridge} (message : Text) (choices : List Text) (offset : Option ℤ) (answer : ℕ)
        (xp : ℤ)
        → Managed b
        → checked_answer offset choices ≡ some answer
        → IsNoDm message b
        → Managed (start_multiple_choice_quiz_event (some message) choices answer xp b)
    reacted :
        {b : PosPlayBridge} (r : Reaction) (d : D)
        → Managed b
        → Managed (handle_reaction on_win r b d).0
    messaged :
        {b : PosPlayBridge} (active : Bool) (m : Message) (d : D) (h : Handled Bool D)
        → Managed b
        → handle_message
            (λ user cache. cache)
            (λ user cache. true)
            on_participation
            on_win
            fold
            m
            b
            active
            d
          ≡ some h
        → Managed h.bridge
    ended :
        {b b' : PosPlayBridge} (ending : Ending) (event : OngoingEvent) (d d' : D)
        → Managed b
        → end_event on_win ending event b d ≡ some (b', d')
        → Managed b'

  Managed-IsSafe : {b : PosPlayBridge} → Managed b → IsSafe b
  unfolding start_reaction_event start_quiz_event start_multiple_choice_quiz_event handle_reaction
      load sent_to
  Managed-IsSafe at_start = record { indexed = λ k v e. cc; sent = λ m x h. absurd h }
  Managed-IsSafe (reaction_started {b} message xp r new) =
      start-IsSafe message _ b (Managed-IsSafe r) tt new
  Managed-IsSafe (quiz_started {b} message trigger answer attempts xp r new) =
      start-IsSafe trigger _ b (Managed-IsSafe r) tt new
  Managed-IsSafe (choices_started {b} message choices offset answer xp r e new) =
      choices_started-IsSafe message _ b (Managed-IsSafe r)
        (checked_answer_bound on_win on_participation fold offset choices answer e) new
  Managed-IsSafe (reacted {b} x d r) =
      let s = Managed-IsSafe r in
      react-IsSafe on_win on_participation fold x _ _ d
        (same-IsSafe on_win on_participation fold b _ refl refl s)
        (λ w e. s.indexed x.reaction_message w e)
  Managed-IsSafe (messaged {b} active m d h r e) =
      let kept = handled-IsSafe on_win on_participation fold m b active d (Managed-IsSafe r) in
      rw e at kept
  Managed-IsSafe (ended {b} {b'} ending event d d' r e) =
      let kept =
        end_event-IsSafe on_win on_participation fold ending event b d (Managed-IsSafe r) in
      rw e at kept

  -- However events start, end and are answered, the end of an event does not panic. It removes the
  -- event and the personal data of its users, if it is a multiple-choice quiz, and leaves everything
  -- else. If the time of such a quiz is over, the callback is called just for the users whose
  -- recorded answer is right, once each and in order, and in all other cases for no one.
  pub end_event-Managed :
      {b : PosPlayBridge} (ending : Ending) (v : OngoingEvent) (d : D)
      → Managed b
      → EndOutcome on_win ending v b d (end_event on_win ending v b d)
  end_event-Managed {b} ending v d r =
      end_event_lem on_win ending v b d (IsSafe-IsEndable v b (Managed-IsSafe r))
