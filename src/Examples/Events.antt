-- ===== src/Examples/Events.antt =====
-- Runs of the events of the Discord server, and the conditions of their theorems at them.
use Prim.Native.Char.{code}
use disturbancesmlx.Prelude.{
  inl, ℕ, zero, suc, ◌+◌, ◌≤◌, String, ◌≡◌, refl, ap, ◌∙◌, ◌↔◌, true, false, Option, none, some,
  List, [], ◌∷◌, arith, pos, ◌+ℤ◌, at_key, upsert, select, count, Fresh, ◌==◌, if◌then◌else◌,
}
use disturbancesmlx.Events.Attempts.{answer_log, rewards_log, tally_of, answer_log_lem}
use disturbancesmlx.Events.Bridge.{
  WinCallback, win, comes_from_dm, sent_to, letter, Reaction, react, handle_reaction, timed_out,
}
use disturbancesmlx.Events.Choices.{first_choice, settled, handle_reactions, handle_reactions_lem}
use disturbancesmlx.Events.Ended.{win_all, final_rewards}
use disturbancesmlx.Events.Messages.{
  split_word, trigger_of, Message, handle_quiz_message, answer_to, handle_message,
}
use disturbancesmlx.Events.Model.{
  QuizEvent, MultipleChoiceQuizEvent, PersonalData, quiz_event, multiple_choice_quiz_event,
  personal_data, PosPlayBridge, start_reaction_event, to_lower,
}
use disturbancesmlx.Events.Panics.{IsBare, handle_message_panics_iff}
use disturbancesmlx.Events.Reachable.{
  new_bridge, event_win, at_start, reaction_started, reacted, Reachable-once,
}
use disturbancesmlx.Events.Reward.{HasNewIds, WinOutcome, register_event_win_lem}
use disturbancesmlx.Events.Win.{Surroundings, is_win, register_event_win}
use disturbancesmlx.PosPlay.Transactions.{
  XpTransaction, last_transaction, blank, base_transaction, reward_transaction, do_xp_transaction,
}
use disturbancesmlx.Texts.{Text, text_eq, load, delete, store}

unary : ℕ → String → String
unary zero s = s
unary (suc n) s = String.◌∷◌ "a" (unary n s)

-- A text for a list of numbers, and back.
as_text : Text → String
unfolding unary
as_text [] = String.[]
as_text (c ∷ cs) = unary c (String.◌∷◌ "b" (as_text cs))

numbers : ℕ → String → Text
numbers n String.[] = []
numbers n (String.◌∷◌ c s) =
    let ended = n ∷ numbers 0 s in
    let more = numbers (n + 1) s in if code c == b'b' then ended else more

numbers-unary :
    (k n : ℕ) (s : String) → numbers k (unary n (String.◌∷◌ "b" s)) ≡ (k + n) ∷ numbers 0 s
unfolding numbers unary
numbers-unary k zero s = ground arith
numbers-unary k (suc n) s = numbers-unary (k + 1) n s ∙ ground arith

numbers-as_text : (m : Text) → numbers 0 (as_text m) ≡ m
unfolding as_text numbers
numbers-as_text [] = refl
numbers-as_text (c ∷ cs) = numbers-unary 0 c (as_text cs) ∙ ground (arith, numbers-as_text cs)

abbrev id_in : String → Option Text
id_in s = some (numbers 0 s)

id_in_lem : (m : Text) → id_in (as_text m) ≡ some m
id_in_lem m = ap some (numbers-as_text m)

-- A number above all identifiers.
next_id : List XpTransaction → ℕ
next_id [] = 0
next_id (x ∷ xs) = x.tx_id + 1 + next_id xs

above-Fresh : (k : ℕ) (rows : List XpTransaction) → next_id rows ≤ k → Fresh (λ r. r.tx_id) k rows
unfolding next_id
above-Fresh k [] h = tt
above-Fresh k (x ∷ xs) h = (λ e. omega arith, above-Fresh k xs (omega arith))

abbrev working : Surroundings
working = record {
  fails = λ user op. false;
  xp_fails = λ user op. false;
  is_known = λ user. true;
  now = 5000;
  week_start = 1000;
  new_uuid = λ rows. some (next_id rows);
}

working-HasNewIds : HasNewIds working
working-HasNewIds rows id e =
    let equal : next_id rows ≡ id = cc in above-Fresh id rows (omega arith)

abbrev event_one : Text
event_one = 7 ∷ []

abbrev thumbs_up : Reaction
thumbs_up = record {
  reaction_user = 42;
  reaction_message = event_one;
  emoji_name = 128077 ∷ [];
  is_player = true;
  reaction_dm = none;
}

Reachable-once_example :
    count
      (is_win as_text id_in 42 "DISCORD_REACTION_EVENT" event_one)
      (handle_reaction
        (event_win as_text id_in (λ t. some t) working)
        thumbs_up
        (start_reaction_event (some event_one) (pos 10) new_bridge)
        []).1
    ≤ 1
Reachable-once_example =
    Reachable-once as_text id_in (λ t. some t) id_in_lem 42 "DISCORD_REACTION_EVENT" event_one
      (reacted working thumbs_up working-HasNewIds
        (reaction_started (some event_one) (pos 10) at_start))
      (inl refl)

-- The reaction does give the reward.
first_reward :
    (handle_reaction
      (event_win as_text id_in (λ t. some t) working)
      thumbs_up
      (start_reaction_event (some event_one) (pos 10) new_bridge)
      []).1
    ≡ record {
      tx_id = 0;
      discord_id = 42;
      tx_time = 5000;
      value = pos 10;
      tx_type = "DISCORD_REACTION_EVENT";
      extra = as_text event_one;
    }
      ∷ []
unfolding handle_reaction react start_reaction_event win register_event_win do_xp_transaction
    base_transaction last_transaction reward_transaction blank upsert is_win next_id load store
    delete text_eq ◌+ℤ◌
first_reward = refl

register_event_win_lem_example :
    let (rows', won) =
      register_event_win as_text id_in working 42 event_one (pos 10) "DISCORD_REACTION_EVENT" [] in
    WinOutcome as_text id_in id_in_lem 42 event_one
      (pos 10)
      "DISCORD_REACTION_EVENT"
      1000
      []
      rows'
      won
register_event_win_lem_example =
    register_event_win_lem as_text id_in id_in_lem working 42 event_one (pos 10)
      "DISCORD_REACTION_EVENT" [] working-HasNewIds (omega arith)

-- The callback notes the users that win.
noting : WinCallback (List ℕ)
noting = some (λ user message xp event_type d. (user ∷ d, true))

abbrev capital : QuizEvent
capital = record {
  quiz = record { message_id = event_one; xp_reward = pos 10 };
  trigger = 99 ∷ [];
  quiz_answer = 1 ∷ [];
  max_attempts = 2;
  attempt_tally = [];
}

-- The latest answer is first: user 5 is wrong twice and then right, user 6 right at once.
abbrev tries : List (ℕ × Text)
tries = (5, 1 ∷ []) ∷ (5, 3 ∷ []) ∷ (6, 1 ∷ []) ∷ (5, 2 ∷ []) ∷ []

answer_log_lem_example :
    ((answer_log noting capital (1 ∷ []) [] tries).1 ≡ rewards_log noting capital (1 ∷ []) [] tries)
    × ((user : ℕ)
        → at_key 0 user (answer_log noting capital (1 ∷ []) [] tries).0.attempt_tally
          ≡ tally_of noting capital (1 ∷ []) [] user tries)
answer_log_lem_example = answer_log_lem noting capital (1 ∷ []) [] tries (omega arith) refl

only_six : rewards_log noting capital (1 ∷ []) [] tries ≡ 6 ∷ []
unfolding rewards_log win noting text_eq
only_six = refl

abbrev pick : MultipleChoiceQuizEvent
pick = record {
  choice_quiz = record { message_id = event_one; xp_reward = pos 10 };
  choices = (1 ∷ []) ∷ (2 ∷ []) ∷ [];
  answer = 1;
}

abbrev unanswered : PersonalData
unanswered = record { of_event = pick; answered = false; given_answer = 0 }

abbrev picking : PosPlayBridge
picking = record new_bridge {
  ongoing = (event_one, multiple_choice_quiz_event pick) ∷ (8 ∷ [], personal_data unanswered) ∷ [];
  sent_choices = (event_one, (42, 8 ∷ []) ∷ []) ∷ [];
}

abbrev picks : List Reaction
picks =
    record thumbs_up { reaction_dm = some (20 ∷ []) }
    ∷ record thumbs_up { emoji_name = letter 1; reaction_dm = some (21 ∷ []) }
    ∷ record thumbs_up { emoji_name = letter 0; reaction_dm = some (22 ∷ []) }
    ∷ []

handle_reactions_lem_example :
    let x = handle_reactions noting (8 ∷ []) picks picking [] in
    (load (8 ∷ []) x.0.ongoing ≡ some (personal_data (settled unanswered (first_choice 2 picks))))
    × (x.1 ≡ [])
unfolding load text_eq
handle_reactions_lem_example =
    handle_reactions_lem noting (8 ∷ []) picks picking [] unanswered refl refl

second_choice : first_choice 2 picks ≡ some 1
second_choice = refl

abbrev answered_bridge : PosPlayBridge
answered_bridge = record picking {
  ongoing =
      (event_one, multiple_choice_quiz_event pick)
      ∷ (8 ∷ [], personal_data (record unanswered { answered = true; given_answer = 1 }))
      ∷ [];
}

right_answer_wins :
    final_rewards noting timed_out (multiple_choice_quiz_event pick) answered_bridge [] ≡ 42 ∷ []
unfolding sent_to load text_eq select win_all win noting
right_answer_wins = refl

abbrev quizzing : PosPlayBridge
quizzing = record new_bridge { ongoing = (b'q' ∷ [], quiz_event capital) ∷ [] }

-- A direct message that is "q!".
abbrev bare : Message
bare = record {
  author = 42;
  channel = 3;
  content = b'q' ∷ b'!' ∷ [];
  channel_in_state = none;
  channel_fetched = some true;
}

handle_message_panics_iff_example :
    (handle_message
        (λ user cache. cache)
        (λ user cache. true)
        (λ user xp d. (d, true))
        noting
        (λ t. some t)
        bare
        quizzing
        true
        []
      ≡ none)
    ↔ IsBare
        (λ user cache. cache)
        (λ user cache. true)
        (λ user xp d. (d, true))
        noting
        (λ t. some t)
        bare
        quizzing
handle_message_panics_iff_example =
    handle_message_panics_iff (λ user cache. cache) (λ user cache. true) (λ user xp d. (d, true))
      noting (λ t. some t) bare quizzing true []

bare_panics :
    handle_message
      (λ user cache. cache)
      (λ user cache. true)
      (λ user xp d. (d, true))
      noting
      (λ t. some t)
      bare
      quizzing
      true
      []
    ≡ none
unfolding handle_message answer_to handle_quiz_message comes_from_dm split_word trigger_of to_lower
    load text_eq
bare_panics = refl
