-- ===== src/Examples/Managed.antt =====
-- A multiple-choice quiz from its start to its end.
use disturbancesmlx.Prelude.{
  ℕ, ◌≡◌, refl, Bool, true, some, List, [], ◌∷◌, ℤ, pos, delete_key, set_key, select,
}
use disturbancesmlx.Events.Bridge.{
  WinCallback, win, load_user, sent_to, send_multiple_choice_quiz_options, letter,
  handle_multiple_choice_quiz_answer, Reaction, react, handle_reaction, timed_out, end_event,
}
use disturbancesmlx.Events.Ended.{win_all, final_rewards, EndOutcome}
use disturbancesmlx.Events.Managed.{Managed, end_event-Managed, reacted, choices_started, at_start}
use disturbancesmlx.Events.Model.{
  OngoingEvent, multiple_choice_quiz_event, PosPlayBridge, start_multiple_choice_quiz_event,
  find_choice, checked_answer,
}
use disturbancesmlx.Events.Reachable.{new_bridge}
use disturbancesmlx.Texts.{Text, text_eq, load, delete, store}

-- The callback notes the users that win.
noting : WinCallback (List ℕ)
noting = some (λ user message xp event_type d. (user ∷ d, true))

abbrev ignoring : ℕ → ℤ → List ℕ → List ℕ × Bool
ignoring user xp d = (d, true)

abbrev two_choices : List Text
two_choices = (1 ∷ []) ∷ (2 ∷ []) ∷ []

abbrev asking : Reaction
asking = record {
  reaction_user = 42;
  reaction_message = 7 ∷ [];
  emoji_name = 128077 ∷ [];
  is_player = true;
  reaction_dm = some (8 ∷ []);
}

abbrev choosing : Reaction
choosing = record asking { reaction_message = 8 ∷ []; emoji_name = letter 1 }

abbrev started : PosPlayBridge
started = start_multiple_choice_quiz_event (some (7 ∷ [])) two_choices 1 (pos 10) new_bridge

abbrev chosen : PosPlayBridge
chosen = (handle_reaction noting choosing (handle_reaction noting asking started []).0 []).0

abbrev the_quiz : OngoingEvent
the_quiz = multiple_choice_quiz_event (record {
  choice_quiz = record { message_id = 7 ∷ []; xp_reward = pos 10 };
  choices = two_choices;
  answer = 1;
})

chosen-Managed : Managed noting ignoring (λ t. some t) chosen
unfolding checked_answer sent_to load
chosen-Managed = reacted choosing [] (
    reacted asking [] (
      choices_started (7 ∷ []) two_choices (some (pos 1)) 1 (pos 10) at_start refl
        (λ m x h. absurd h)))

end_event-Managed_example :
    EndOutcome noting timed_out the_quiz chosen [] (end_event noting timed_out the_quiz chosen [])
end_event-Managed_example =
    end_event-Managed noting ignoring (λ t. some t) timed_out the_quiz [] chosen-Managed

chosen_wins : final_rewards noting timed_out the_quiz chosen [] ≡ 42 ∷ []
unfolding handle_reaction react start_multiple_choice_quiz_event handle_multiple_choice_quiz_answer
    send_multiple_choice_quiz_options find_choice sent_to load_user load store delete set_key
    delete_key text_eq select win_all win noting
chosen_wins = refl
