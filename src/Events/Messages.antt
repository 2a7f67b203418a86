-- ===== src/Events/Messages.antt =====
-- discordbot/posplay.go: HandleMessage, the answers to quizzes and the activity of users.
use disturbancesmlx.Prelude.{
  ℕ, ◌+◌, ◌%◌, ◌^◌, Bool, true, false, not, ◌&&◌, Option, none, some, [], ◌∷◌, ℤ, pos, set_key,
  at_key, ltb, leb, ◌==◌, if◌then◌else◌,
}
use disturbancesmlx.Events.Bridge.{WinCallback, win, comes_from_dm}
use disturbancesmlx.Texts.{Text, text_eq, load, store}
use disturbancesmlx.Events.Model.{
  QuizEvent, OngoingEvent, quiz_event, PosPlayBridge, to_lower, is_alphanumeric, contains_channel,
}

-- strings.SplitN(content, " ", 2): the first word, and what follows it if there is a space.
unfoldable pub split_word : Text → Text × Option Text
split_word [] = ([], none)
split_word (c ∷ cs) =
    if c == 32 then ([], some cs) else let (word, rest) = split_word cs in (c ∷ word, rest)

-- strings.ToLower(reg.ReplaceAllString(words[0], ""))
unfoldable pub trigger_of : Text → Text
trigger_of [] = []
trigger_of (c ∷ cs) = if is_alphanumeric c then to_lower c ∷ trigger_of cs else trigger_of cs

-- What the bot replies to an answer.
pub data Reply : Type 0 where
  attempts_exceeded wrong_and_no_more wrong correct correct_without_reward : Reply

module _ {D : Type 0} (on_win : WinCallback D) where
  -- The part of HandleMessage after the answers are transformed: the tally, what the callback
  -- leaves, and the reply.
  unfoldable pub judge_answer :
      (user : ℕ) → QuizEvent → (answer user_answer : Text) → D → (QuizEvent × D) × Reply
  judge_answer user event answer user_answer d =
      let attempts = at_key 0 user event.attempt_tally in
      if ltb 0 event.max_attempts && leb event.max_attempts attempts
      then (
        (record event { attempt_tally = set_key user attempts event.attempt_tally }, d),
        attempts_exceeded,
      )
      else if not (text_eq answer user_answer)
      then (let attempts' = (attempts + 1) % 2 ^ 64 in
          (
            (record event { attempt_tally = set_key user attempts' event.attempt_tally }, d),
            if ltb 0 event.max_attempts && leb event.max_attempts attempts'
                then wrong_and_no_more
                else wrong,
          ))
      else (let won = win on_win user event.quiz "DISCORD_CHALLENGE_EVENT" d in
          (
            (record event { attempt_tally = set_key user attempts event.attempt_tally }, won.0),
            if won.1 then correct else correct_without_reward,
          ))

-- A message, its author and channel, and what is known of the channel.
pub record Message : Type 0 where
  pub author : ℕ
  pub channel : ℕ
  pub content : Text
  pub channel_in_state : Option Bool
  pub channel_fetched : Option Bool

module _ {C D : Type 0} (present : ℕ → C → Bool) (set_default : ℕ → C → C)
    (on_participation : ℕ → ℤ → D → D × Bool) where
  -- registerUserActivity, with the cache `participation` of the package go-cache.
  unfoldable pub register_user_activity : ℕ → C → D → C × D
  register_user_activity user cache d =
      if present user cache
      then (cache, d)
      else (set_default user cache, (on_participation user (pos 1) d).0)

  -- The activity of the author of a message that is no direct message.
  unfoldable pub note_activity : (spam : Bool) → ℕ → C → D → C × D
  note_activity spam user cache d = if spam then (cache, d) else register_user_activity user cache d

-- What a call of HandleMessage leaves and returns.
pub record Handled (C D : Type 0) : Type 0 where
  pub bridge : PosPlayBridge
  pub cache : C
  pub rewards : D
  pub acted : Bool
  pub reply : Option Reply

module _ {C D : Type 0} (present : ℕ → C → Bool) (set_default : ℕ → C → C)
    (on_participation : ℕ → ℤ → D → D × Bool) (on_win : WinCallback D)
    (fold : Text → Option Text) where
  -- The message to a running quiz, with the rest of its text. `fold` is the removal of diacritics
  -- from the text in lower case, which may fail; `none` is the panic of words[1] if there is no
  -- rest.
  unfoldable pub handle_quiz_message :
      ℕ → Text → QuizEvent → Option Text → PosPlayBridge → C → D → Option (Handled C D)
  handle_quiz_message user trigger event rest b cache d =
      let acted_upon = record b { acted_upon_count = b.acted_upon_count + 1 } in
      let unread : Option (Handled C D) =
        some (record {
          bridge = acted_upon;
          cache = cache;
          rewards = d;
          acted = true;
          reply = none;
        }) in
      elim (fold event.quiz_answer) [
        | none ↦ unread
        | some answer ↦ elim rest [
          | none ↦ none
          | some text ↦ elim (fold text) [
            | none ↦ unread
            | some user_answer ↦
                let ((event', d'), reply) = judge_answer on_win user event answer user_answer d in
                some (record {
                  bridge = record acted_upon {
                    ongoing = store trigger (quiz_event event') b.ongoing;
                  };
                  cache = cache;
                  rewards = d';
                  acted = true;
                  reply = some reply;
                })
          ]
        ]
      ]

  -- What HandleMessage does with what is under the trigger of the message.
  unfoldable pub answer_to :
      ℕ → Text → Option OngoingEvent → Option Text → PosPlayBridge → C → D → Option (Handled C D)
  answer_to user trigger (some (quiz_event event)) rest b cache d =
      handle_quiz_message user trigger event rest b cache d
  answer_to user trigger v rest b cache d =
      some (record { bridge = b; cache = cache; rewards = d; acted = false; reply = none })

  unfoldable pub handle_message : Message → PosPlayBridge → C → D → Option (Handled C D)
  handle_message m b cache d =
      let b' = record b { handled_count = b.handled_count + 1 } in
      let elsewhere : Option (Handled C D) =
        let (cache', d') =
          note_activity present set_default on_participation
            (contains_channel m.channel b.spam_channels) m.author cache d in
        some (record { bridge = b'; cache = cache'; rewards = d'; acted = false; reply = none }) in
      elim (comes_from_dm m.channel_in_state m.channel_fetched) [
        | none ↦ elsewhere
        | some is_dm ↦
            let (word, rest) = split_word m.content in
            if is_dm
            then answer_to m.author (trigger_of word) (load (trigger_of word) b.ongoing) rest b'
                cache d
            else elsewhere
      ]
