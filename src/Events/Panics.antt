-- ===== src/Events/Panics.antt =====
-- Which messages make the bot panic.
use disturbancesmlx.Prelude.{
  ℕ, ◌+◌, ◌≡◌, refl, ◌≢◌, ◌↔◌, inl, inr, Bool, true, false, Option, none, some, ℤ, Option-cases,
}
use disturbancesmlx.Events.Bridge.{WinCallback, comes_from_dm}
use disturbancesmlx.Texts.{Text, load}
use disturbancesmlx.Events.Messages.{
  split_word, trigger_of, Message, handle_quiz_message, answer_to, handle_message,
}
use disturbancesmlx.Events.Model.{
  QuizEvent, OngoingEvent, reaction_event, quiz_event, multiple_choice_quiz_event, personal_data,
  PosPlayBridge,
}

module _ {C D : Type 0} (present : ℕ → C → Bool) (set_default : ℕ → C → C)
    (on_participation : ℕ → ℤ → D → D × Bool) (on_win : WinCallback D)
    (fold : Text → Option Text) where
  -- A direct message that is the trigger of a running quiz, with nothing after it.
  abbrev pub IsBare : Message → PosPlayBridge → Type 0
  IsBare m b =
      (comes_from_dm m.channel_in_state m.channel_fetched ≡ some true)
      × ((split_word m.content).1 ≡ none)
      × ((event : QuizEvent) × (load (trigger_of (split_word m.content).0) b.ongoing
            ≡ some (quiz_event event))
          × (fold event.quiz_answer ≢ none))

  quiz_panics :
      (user : ℕ) (trigger : Text) (event : QuizEvent) (rest : Option Text) (b : PosPlayBridge)
      (cache : C) (d : D)
      → (handle_quiz_message present set_default on_participation on_win fold user trigger event
            rest b cache d
          ≡ none)
        ↔ ((rest ≡ none) × (fold event.quiz_answer ≢ none))
  unfolding handle_quiz_message
  quiz_panics user trigger event rest b cache d = elim (Option-cases (fold event.quiz_answer)) [
    | inl e ↦ rw (handle_quiz_message, e) (λ q. cc, λ q. absurd (q.1 refl))
    | inr (answer, e) ↦ elim (Option-cases rest) [
      | inl r ↦ rw (handle_quiz_message, e, r) (λ q. (refl, λ n. cc), λ q. refl)
      | inr (text, r) ↦ elim (Option-cases (fold text)) [
        | inl f ↦ rw (handle_quiz_message, e, r, f) (λ q. cc, λ q. cc)
        | inr (user_answer, f) ↦ rw (handle_quiz_message, e, r, f) (λ q. cc, λ q. cc)
      ]
    ]
  ]

  answer_panics :
      (user : ℕ) (trigger : Text) (v : Option OngoingEvent) (rest : Option Text) (b : PosPlayBridge)
      (cache : C) (d : D)
      → (answer_to present set_default on_participation on_win fold user trigger v rest b cache d
          ≡ none)
        ↔ ((rest ≡ none)
            × ((event : QuizEvent) × (v ≡ some (quiz_event event))
                × (fold event.quiz_answer ≢ none)))
  unfolding answer_to
  answer_panics user trigger none rest b cache d = (λ q. cc, λ (r, (event, e, f)). cc)
  answer_panics user trigger (some (quiz_event event)) rest b cache d =
      let (only_if, if_bare) = quiz_panics user trigger event rest b cache d in
      (
        λ q. let (r, f) = only_if q in (r, (event, refl, f)),
        λ (r, (other, e, f)). let same : event ≡ other = cc in if_bare (r, rw same f),
      )
  answer_panics user trigger (some (reaction_event event)) rest b cache d =
      (λ q. cc, λ (r, (other, e, f)). cc)
  answer_panics user trigger (some (multiple_choice_quiz_event event)) rest b cache d =
      (λ q. cc, λ (r, (other, e, f)). cc)
  answer_panics user trigger (some (personal_data p)) rest b cache d =
      (λ q. cc, λ (r, (other, e, f)). cc)

  -- HandleMessage panics on exactly the direct messages that are the trigger of a running quiz with
  -- no space after it, when the answer of the quiz can be transformed.
  pub handle_message_panics_iff :
      (m : Message) (b : PosPlayBridge) (cache : C) (d : D)
      → (handle_message present set_default on_participation on_win fold m b cache d ≡ none)
        ↔ IsBare m b
  unfolding handle_message
  handle_message_panics_iff m b cache d =
      elim (Option-cases (comes_from_dm m.channel_in_state m.channel_fetched)) [
        | inl e ↦ rw (handle_message, e) (λ q. cc, λ q. cc)
        | inr (false, e) ↦ rw (handle_message, e) (λ q. cc, λ q. cc)
        | inr (true, e) ↦
            let (only_if, if_bare) =
              answer_panics m.author (trigger_of (split_word m.content).0)
                (load (trigger_of (split_word m.content).0) b.ongoing) (split_word m.content).1
                (record b { handled_count = b.handled_count + 1 }) cache d in
            rw (handle_message, e)
              (λ q. let (r, f) = only_if q in (refl, r, f), λ (x, r, f). if_bare (r, f))
      ]
