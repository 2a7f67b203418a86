-- ===== src/Events/SafeSteps.antt =====
-- What the handlers and the ends of events keep, so that no end of an event panics.
use disturbancesmlx.Events.Bridge.{
  stopped, timed_out, WinCallback, win, comes_from_dm, load_user, sent_to,
  send_multiple_choice_quiz_options, letter, handle_multiple_choice_quiz_answer, Reaction, is_some,
  react, give_rewards, delete_all, cleanup, Ending, end_event,
}
use disturbancesmlx.Prelude.{
  ℕ, ◌+◌, ◌<◌, ◌≡◌, refl, sym, ap, subst, ◌∙◌, inl, inr, Bool, true, false, Option, none, some,
  List, [], ◌∷◌, arith, ℤ, pos, negsuc, length, Has, Bool-cases, Option-cases,
}
use disturbancesmlx.Events.Choices.{find_choice_bound}
use disturbancesmlx.Events.Messages.{
  split_word, trigger_of, Message, Handled, handle_quiz_message, answer_to, handle_message,
}
use disturbancesmlx.Events.Model.{
  QuizEvent, MultipleChoiceQuizEvent, PersonalData, OngoingEvent, reaction_event, quiz_event,
  multiple_choice_quiz_event, personal_data, PosPlayBridge, find_choice, checked_answer,
}
use disturbancesmlx.Events.Safe.{
  IsIndexed, IsOfDm, IsSafe, IsNoDm, start-IsSafe, delete-IsSafe, sent-IsSafe, data_stored-IsSafe,
}
use disturbancesmlx.Events.Steps.{OnSome}
use disturbancesmlx.Texts.{Text, text_eq, text_eq-eq, load, delete}

module _ {D : Type 0} (on_win : WinCallback D) (on_participation : ℕ → ℤ → D → D × Bool)
    (fold : Text → Option Text) where
  -- Only these two fields matter.
  pub same-IsSafe :
      (b b' : PosPlayBridge)
      → b.ongoing ≡ b'.ongoing
      → b.sent_choices ≡ b'.sent_choices
      → IsSafe b
      → IsSafe b'
  unfolding sent_to
  same-IsSafe b b' e f s = record {
    indexed = λ k v q. s.indexed k v (ap (load k) e ∙ q);
    sent = λ m x h.
        subst (λ o. IsOfDm (load x.1 o)) e
          (s.sent m x
            (subst (λ c. Has x (elim (load m c) [ none ↦ [] | some users ↦ users ])) (sym f) h));
  }

  pub checked_answer_bound :
      (offset : Option ℤ) (choices : List Text) (answer : ℕ)
      → checked_answer offset choices ≡ some answer
      → answer < length choices
  unfolding checked_answer
  checked_answer_bound none choices answer e = cc
  checked_answer_bound (some (pos n)) choices answer e = ground arith
  checked_answer_bound (some (negsuc n)) choices answer e = cc

  answered-IsSafe :
      (message emoji : Text) (dm_sent : Bool) (p : PersonalData) (b : PosPlayBridge)
      → IsSafe b
      → IsIndexed (personal_data p)
      → IsSafe (handle_multiple_choice_quiz_answer message emoji dm_sent p b)
  unfolding handle_multiple_choice_quiz_answer
  answered-IsSafe message emoji dm_sent p b s i = elim (Bool-cases p.answered) [
    | inl e ↦ rw (handle_multiple_choice_quiz_answer, e) s
    | inr e ↦
        elim (Option-cases
          (find_choice (λ k choice. text_eq (letter k) emoji) 0 p.of_event.choices)) [
            | inl f ↦ rw (handle_multiple_choice_quiz_answer, e, f) s
            | inr (k, f) ↦ elim (Bool-cases dm_sent) [
              | inl q ↦
                  rw (handle_multiple_choice_quiz_answer, e, f, q)
                    (data_stored-IsSafe message (record p { given_answer = k; answered = true }) b s
                      (i.0, λ answered. find_choice_bound p.of_event.choices emoji k f))
              | inr q ↦ rw (handle_multiple_choice_quiz_answer, e, f, q) s
            ]
          ]
  ]

  options_sent-IsSafe :
      (user : ℕ) (is_player : Bool) (dm : Option Text) (event : MultipleChoiceQuizEvent)
      (b : PosPlayBridge)
      → IsSafe b
      → event.answer < length event.choices
      → IsSafe (send_multiple_choice_quiz_options user is_player dm event b)
  unfolding send_multiple_choice_quiz_options
  options_sent-IsSafe user is_player dm event b s i =
      elim (Option-cases (load_user user (sent_to event.choice_quiz.message_id b))) [
        | inr (sent, e) ↦ rw (send_multiple_choice_quiz_options, e) s
        | inl e ↦ elim (Bool-cases is_player) [
          | inr q ↦ rw (send_multiple_choice_quiz_options, e, q) s
          | inl q ↦ elim (Option-cases dm) [
            | inl n ↦ rw (send_multiple_choice_quiz_options, e, q, n) s
            | inr (m, n) ↦
                rw (send_multiple_choice_quiz_options, e, q, n)
                  (sent-IsSafe event.choice_quiz.message_id m user
                    (record { of_event = event; answered = false; given_answer = 0 }) b s
                    (i, λ answered. cc))
          ]
        ]
      ]

  pub react-IsSafe :
      (r : Reaction) (v : Option OngoingEvent) (b : PosPlayBridge) (d : D)
      → IsSafe b
      → ((w : OngoingEvent) → v ≡ some w → IsIndexed w)
      → IsSafe (react on_win r v b d).0
  unfolding react
  react-IsSafe r none b d s i = s
  react-IsSafe r (some (reaction_event event)) b d s i =
      elim (Bool-cases (win on_win r.reaction_user event "DISCORD_REACTION_EVENT" d).1) [
        | inl e ↦ rw (react, e) (same-IsSafe b _ refl refl s)
        | inr e ↦ rw (react, e) s
      ]
  react-IsSafe r (some (quiz_event event)) b d s i = s
  react-IsSafe r (some (multiple_choice_quiz_event event)) b d s i = same-IsSafe _ _ refl refl (
      options_sent-IsSafe r.reaction_user r.is_player r.reaction_dm event b s
        (i (multiple_choice_quiz_event event) refl))
  react-IsSafe r (some (personal_data p)) b d s i = same-IsSafe _ _ refl refl (
      answered-IsSafe r.reaction_message r.emoji_name (is_some r.reaction_dm) p b s
        (i (personal_data p) refl))

  quiz-IsNoDm :
      (trigger : Text) (event : QuizEvent) (b : PosPlayBridge)
      → IsSafe b
      → load trigger b.ongoing ≡ some (quiz_event event)
      → IsNoDm trigger b
  quiz-IsNoDm trigger event b s e m x h = elim (Bool-cases (text_eq trigger x.1)) [
    | inr q ↦ q
    | inl q ↦ absurd (
        subst IsOfDm
          (subst (λ k. load k b.ongoing ≡ some (quiz_event event)) (text_eq-eq trigger x.1 q) e)
          (s.sent m x h))
  ]

  quiz_handled-IsSafe :
      (user : ℕ) (trigger : Text) (event : QuizEvent) (rest : Option Text) (b : PosPlayBridge)
      (cache : Bool) (d : D)
      → IsSafe b
      → load trigger b.ongoing ≡ some (quiz_event event)
      → OnSome
          (λ (h : Handled Bool D). IsSafe h.bridge)
          (handle_quiz_message
            (λ u c. c)
            (λ u c. true)
            on_participation
            on_win
            fold
            user
            trigger
            event
            rest
            b
            cache
            d)
  unfolding handle_quiz_message
  quiz_handled-IsSafe user trigger event rest b cache d s there' =
      elim (Option-cases (fold event.quiz_answer)) [
        | inl e ↦ rw (handle_quiz_message, e) (same-IsSafe b _ refl refl s)
        | inr (answer, e) ↦ elim (Option-cases rest) [
          | inl r ↦ rw (handle_quiz_message, e, r) tt
          | inr (text, r) ↦ elim (Option-cases (fold text)) [
            | inl f ↦ rw (handle_quiz_message, e, r, f) (same-IsSafe b _ refl refl s)
            | inr (user_answer, f) ↦
                rw (handle_quiz_message, e, r, f)
                  (same-IsSafe _ _ refl refl
                    (start-IsSafe trigger _ b s tt (quiz-IsNoDm trigger event b s there')))
          ]
        ]
      ]

  answered_to-IsSafe :
      (user : ℕ) (trigger : Text) (v : Option OngoingEvent) (rest : Option Text) (b : PosPlayBridge)
      (cache : Bool) (d : D)
      → IsSafe b
      → load trigger b.ongoing ≡ v
      → OnSome
          (λ (h : Handled Bool D). IsSafe h.bridge)
          (answer_to
            (λ u c. c)
            (λ u c. true)
            on_participation
            on_win
            fold
            user
            trigger
            v
            rest
            b
            cache
            d)
  unfolding answer_to
  answered_to-IsSafe user trigger none rest b cache d s e = s
  answered_to-IsSafe user trigger (some (quiz_event event)) rest b cache d s e =
      quiz_handled-IsSafe user trigger event rest b cache d s e
  answered_to-IsSafe user trigger (some (reaction_event event)) rest b cache d s e = s
  answered_to-IsSafe user trigger (some (multiple_choice_quiz_event event)) rest b cache d s e = s
  answered_to-IsSafe user trigger (some (personal_data p)) rest b cache d s e = s

  pub handled-IsSafe :
      (m : Message) (b : PosPlayBridge) (cache : Bool) (d : D)
      → IsSafe b
      → OnSome
          (λ (h : Handled Bool D). IsSafe h.bridge)
          (handle_message (λ u c. c) (λ u c. true) on_participation on_win fold m b cache d)
  unfolding handle_message
  handled-IsSafe m b cache d s =
      let s' = same-IsSafe b (record b { handled_count = b.handled_count + 1 }) refl refl s in
      elim (Option-cases (comes_from_dm m.channel_in_state m.channel_fetched)) [
        | inl e ↦ rw (e, handle_message) s'
        | inr (false, e) ↦ rw (e, handle_message) s'
        | inr (true, e) ↦
            rw (e, handle_message)
              (answered_to-IsSafe m.author (trigger_of (split_word m.content).0) _
                (split_word m.content).1 _ cache d s' refl)
      ]

  delete_all-IsSafe :
      (users : List (ℕ × Text)) (b : PosPlayBridge)
      → IsSafe b
      → IsSafe (record b { ongoing = delete_all users b.ongoing })
  unfolding delete_all
  delete_all-IsSafe [] b s = s
  delete_all-IsSafe (x ∷ users) b s =
      delete_all-IsSafe users (record b { ongoing = delete x.1 b.ongoing }) (delete-IsSafe x.1 b s)

  cleanup-IsSafe :
      (event : MultipleChoiceQuizEvent) (b : PosPlayBridge) → IsSafe b → IsSafe (cleanup event b)
  unfolding cleanup
  cleanup-IsSafe event b s =
      delete-IsSafe event.choice_quiz.message_id _
        (delete_all-IsSafe (sent_to event.choice_quiz.message_id b) b s)

  pub end_event-IsSafe :
      (ending : Ending) (v : OngoingEvent) (b : PosPlayBridge) (d : D)
      → IsSafe b
      → OnSome (λ x. IsSafe x.0) (end_event on_win ending v b d)
  unfolding end_event
  end_event-IsSafe ending (reaction_event event) b d s = delete-IsSafe event.message_id b s
  end_event-IsSafe ending (quiz_event event) b d s = delete-IsSafe event.trigger b s
  end_event-IsSafe stopped (multiple_choice_quiz_event event) b d s = cleanup-IsSafe event b s
  end_event-IsSafe timed_out (multiple_choice_quiz_event event) b d s =
      elim (Option-cases
        (give_rewards on_win event (sent_to event.choice_quiz.message_id b) b.ongoing d)) [
          | inl e ↦ rw (end_event, e) tt
          | inr (d', e) ↦ rw (end_event, e) (cleanup-IsSafe event b s)
        ]
  end_event-IsSafe ending (personal_data p) b d s = s
