-- ===== src/Events/Model.antt =====
-- discordbot/posplay.go: the events that go on, and what starting them and their commands store.
use disturbancesmlx.Prelude.{
  ℕ, ◌+◌, ◌-◌, ◌%◌, ◌^◌, Bool, true, false, not, ◌&&◌, ◌||◌, Option, none, some, List, [], ◌∷◌,
  ◌++◌, map, ℤ, pos, negsuc, ◌-ℤ◌, length, select, ltb, leb, ◌==◌, if◌then◌else◌,
}
use disturbancesmlx.Texts.{Text, text_eq, load, store}
use disturbancesmlx.Clock.{wrap_int64}

-- posPlayEvent, without the channel by which it is stopped
pub record PosPlayEvent : Type 0 where
  pub message_id : Text
  pub xp_reward : ℤ

-- posPlayQuizEvent. The tally has the number of wrong attempts of each user.
pub record QuizEvent : Type 0 where
  pub quiz : PosPlayEvent
  pub trigger : Text
  pub quiz_answer : Text
  pub max_attempts : ℕ
  pub attempt_tally : List (ℕ × ℕ)

-- posPlayMultipleChoiceQuizEvent, without the question. The map SentChoicesTo, which the copies of
-- the event share, is in `sent_choices` of the bridge.
pub record MultipleChoiceQuizEvent : Type 0 where
  pub choice_quiz : PosPlayEvent
  pub choices : List Text
  pub answer : ℕ

-- posPlayMultipleChoiceQuizPersonalData
pub record PersonalData : Type 0 where
  pub of_event : MultipleChoiceQuizEvent
  pub answered : Bool
  pub given_answer : ℕ

pub data OngoingEvent : Type 0 where
  reaction_event : PosPlayEvent → OngoingEvent
  quiz_event : QuizEvent → OngoingEvent
  multiple_choice_quiz_event : MultipleChoiceQuizEvent → OngoingEvent
  personal_data : PersonalData → OngoingEvent

-- PosPlayBridge. `sent_choices` has the map SentChoicesTo of each multiple-choice quiz under the
-- identifier of its message: the users, with the identifiers of their direct messages.
pub record PosPlayBridge : Type 0 where
  pub ongoing : List (Text × OngoingEvent)
  pub sent_choices : List (Text × List (ℕ × Text))
  pub spam_channels : List ℕ
  pub reactions_handled_count : ℕ
  pub reactions_acted_upon_count : ℕ
  pub handled_count : ℕ
  pub acted_upon_count : ℕ

-- uint(numberOfAttempts)
unfoldable pub uint_of : ℤ → ℕ
uint_of (pos n) = n % 2 ^ 64
uint_of (negsuc n) = 2 ^ 64 - 1 - n % 2 ^ 64

-- StartReactionEvent, for the identifier of the message that is sent; `none` is an error.
unfoldable pub start_reaction_event : Option Text → ℤ → PosPlayBridge → PosPlayBridge
start_reaction_event none xp_reward b = b
start_reaction_event (some message) xp_reward b = record b {
  ongoing =
      store message (reaction_event (record { message_id = message; xp_reward = xp_reward }))
        b.ongoing;
}

-- StartQuizEvent
unfoldable pub start_quiz_event :
    Option Text
    → (answer_trigger answer : Text) (number_of_attempts xp_reward : ℤ) → PosPlayBridge
    → PosPlayBridge
start_quiz_event none answer_trigger answer number_of_attempts xp_reward b = b
start_quiz_event (some message) answer_trigger answer number_of_attempts xp_reward b = record b {
  ongoing =
      store answer_trigger
        (quiz_event (record {
          quiz = record { message_id = message; xp_reward = xp_reward };
          trigger = answer_trigger;
          quiz_answer = answer;
          max_attempts = uint_of number_of_attempts;
          attempt_tally = [];
        }))
        b.ongoing;
}

-- StartMultipleChoiceQuizEvent
unfoldable pub start_multiple_choice_quiz_event :
    Option Text → (choices : List Text) (answer : ℕ) (xp_reward : ℤ) → PosPlayBridge → PosPlayBridge
start_multiple_choice_quiz_event none choices answer xp_reward b = b
start_multiple_choice_quiz_event (some message) choices answer xp_reward b = record b {
  ongoing =
      store message
        (multiple_choice_quiz_event (record {
          choice_quiz = record { message_id = message; xp_reward = xp_reward };
          choices = choices;
          answer = answer;
        }))
        b.ongoing;
  sent_choices = store message [] b.sent_choices;
}

-- 'A' - 'Z' as 'a' - 'z', and all else as it is
unfoldable pub to_lower : ℕ → ℕ
to_lower c = if leb b'A' c && leb c b'Z' then c + 32 else c

-- [a-zA-Z0-9]
abbrev pub is_alphanumeric : ℕ → Bool
is_alphanumeric c =
    (leb b'a' c && leb c b'z') || (leb b'A' c && leb c b'Z') || (leb b'0' c && leb c b'9')

-- The trigger that handleQuizStartCommand takes: `none` if it does not match ^[a-zA-Z0-9]+$, or if
-- an event has it already.
all_alphanumeric : Text → Bool
all_alphanumeric [] = true
all_alphanumeric (c ∷ cs) = is_alphanumeric c && all_alphanumeric cs

unfoldable pub checked_trigger : Text → PosPlayBridge → Option Text
unfolding all_alphanumeric
checked_trigger [] b = none
checked_trigger (c ∷ cs) b =
    if all_alphanumeric (c ∷ cs)
    then elim (load (map to_lower (c ∷ cs)) b.ongoing) [
      | none ↦ some (map to_lower (c ∷ cs))
      | some v ↦ none
    ]
    else none

-- The first choice that a test holds of, counted from `i`.
unfoldable pub find_choice : (ℕ → Text → Bool) → ℕ → List Text → Option ℕ
find_choice p i [] = none
find_choice p i (c ∷ cs) = if p i c then some i else find_choice p (i + 1) cs

abbrev to_upper : ℕ → ℕ
to_upper c = if leb b'a' c && leb c b'z' then c - 32 else c

-- The answer that handleMultipleChoiceQuizStartCommand takes from args[3]: `number` is what
-- strconv.Atoi reads and `lower` is strings.ToLower.
unfoldable pub answer_offset :
    (number : Option ℤ) (lower : Text → Text) → Text → List Text → Option ℤ
answer_offset (some number) lower arg choices = some (wrap_int64 (number -ℤ pos 1))
answer_offset none lower arg choices =
    let named : Option ℤ =
      elim (find_choice (λ i choice. text_eq (lower choice) (lower arg)) 0 choices) [
        | none ↦ none
        | some i ↦ some (pos i)
      ] in
    elim arg [
      | [] ↦ named
      | c ∷ cs ↦ elim cs [
        | [] ↦ if ltb c 128 then some (pos ((to_upper c + 256 - b'A') % 256)) else named
        | d ∷ ds ↦ named
      ]
    ]

-- The check of the offset, for a negative offset, or none, and for one that is too large.
unfoldable pub checked_answer : Option ℤ → List Text → Option ℕ
checked_answer none choices = none
checked_answer (some (pos n)) choices = if ltb n (length choices) then some n else none
checked_answer (some (negsuc n)) choices = none

-- StopEvent: the event whose goroutine is told to stop; `none` is its error. The personal data of a
-- user cannot be stopped.
unfoldable pub stop_event : Text → PosPlayBridge → Option OngoingEvent
stop_event event_id b = elim (load event_id b.ongoing) [
  | none ↦ none
  | some (personal_data p) ↦ none
  | some v ↦ some v
]

-- handleMarkSpamChannel, handleUnmarkSpamChannel
unfoldable pub contains_channel : ℕ → List ℕ → Bool
contains_channel c [] = false
contains_channel c (d ∷ ds) = d == c || contains_channel c ds

unfoldable pub mark_spam_channel : ℕ → PosPlayBridge → PosPlayBridge
unfolding contains_channel
mark_spam_channel channel b =
    if contains_channel channel b.spam_channels
    then b
    else record b { spam_channels = b.spam_channels ++ (channel ∷ []) }

unfoldable pub unmark_spam_channel : ℕ → PosPlayBridge → PosPlayBridge
unmark_spam_channel channel b = record b {
  spam_channels = select (λ c. not (c == channel)) b.spam_channels;
}
