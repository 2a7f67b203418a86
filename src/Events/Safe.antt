-- ===== src/Events/Safe.antt =====
-- What keeps the end of an event from panicking.
use disturbancesmlx.Prelude.{
  ℕ, ◌<◌, ◌≡◌, refl, sym, subst, inl, inr, true, false, Option, none, some, length, Has,
  if◌then◌else◌, Bool-cases, ◌∙◌, ◌⊎◌, Bool, List, [], ◌∷◌, delete_key, set_key, ◌==◌, ap, arith,
}
use disturbancesmlx.Events.Bridge.{sent_to}
use disturbancesmlx.Events.Model.{
  PersonalData, OngoingEvent, reaction_event, quiz_event, multiple_choice_quiz_event, personal_data,
  PosPlayBridge, MultipleChoiceQuizEvent,
}
use disturbancesmlx.Texts.{
  Text, text_eq, load, load-store, store, delete, load-delete, text_eq_refl,
}
use disturbancesmlx.Events.Ended.{IsReady, AllReady, IsEndable}

-- The answers of an event or of personal data are among its choices.
abbrev pub IsIndexed : OngoingEvent → Type 0
IsIndexed (reaction_event event) = Unit
IsIndexed (quiz_event event) = Unit
IsIndexed (multiple_choice_quiz_event event) = event.answer < length event.choices
IsIndexed (personal_data p) =
    (p.of_event.answer < length p.of_event.choices)
    × (p.answered ≡ true → p.given_answer < length p.of_event.choices)

-- What may be under the identifier of a direct message.
abbrev pub IsOfDm : Option OngoingEvent → Type 0
IsOfDm none = Unit
IsOfDm (some (reaction_event event)) = ⊥
IsOfDm (some (quiz_event event)) = ⊥
IsOfDm (some (multiple_choice_quiz_event event)) = ⊥
IsOfDm (some (personal_data p)) = Unit

pub record IsSafe (b : PosPlayBridge) : Type 0 where
  pub indexed : (k : Text) (v : OngoingEvent) → load k b.ongoing ≡ some v → IsIndexed v
  pub sent : (m : Text) (x : ℕ × Text) → Has x (sent_to m b) → IsOfDm (load x.1 b.ongoing)

-- No direct message of a quiz has the identifier.
abbrev pub IsNoDm : Text → PosPlayBridge → Type 0
IsNoDm k b = (m : Text) (x : ℕ × Text) → Has x (sent_to m b) → text_eq k x.1 ≡ false

stored_is :
    (j k : Text) (v w : OngoingEvent) (o : List (Text × OngoingEvent))
    → load j (store k v o) ≡ some w
    → (v ≡ w) ⊎ (load j o ≡ some w)
stored_is j k v w o e = by_key (text_eq k j) (load j o) (sym (load-store j k v o) ∙ e)
  where
    by_key :
        (b : Bool) (old : Option OngoingEvent)
        → (if b then some v else old) ≡ some w
        → (v ≡ w) ⊎ (old ≡ some w)
    by_key true old q = inl cc
    by_key false old q = inr q

kept_is :
    (j k : Text) (w : OngoingEvent) (o : List (Text × OngoingEvent))
    → load j (delete k o) ≡ some w
    → load j o ≡ some w
kept_is j k w o e = by_key (text_eq k j) (load j o) (sym (load-delete j k o) ∙ e)
  where
    by_key :
        (b : Bool) (old : Option OngoingEvent) → (if b then none else old) ≡ some w → old ≡ some w
    by_key true old q = cc
    by_key false old q = q

store-IsIndexed :
    (k : Text) (v : OngoingEvent) (o : List (Text × OngoingEvent))
    → IsIndexed v
    → ((j : Text) (w : OngoingEvent) → load j o ≡ some w → IsIndexed w)
    → (j : Text) (w : OngoingEvent) → load j (store k v o) ≡ some w
    → IsIndexed w
store-IsIndexed k v o i all j w e = elim (stored_is j k v w o e) [
  | inl same ↦ subst IsIndexed same i
  | inr old ↦ all j w old
]

-- An event that is stored under an identifier of no direct message.
pub start-IsSafe :
    (k : Text) (v : OngoingEvent) (b : PosPlayBridge)
    → IsSafe b
    → IsIndexed v
    → IsNoDm k b
    → IsSafe (record b { ongoing = store k v b.ongoing })
unfolding sent_to
start-IsSafe k v b s i new = record {
  indexed = store-IsIndexed k v b.ongoing i s.indexed;
  sent = λ m x h. subst IsOfDm (sym (load-store x.1 k v b.ongoing)) (rw (new m x h) (s.sent m x h));
}

data_stored-IsOfDm :
    (j k : Text) (p : PersonalData) (o : List (Text × OngoingEvent))
    → IsOfDm (load j o)
    → IsOfDm (load j (store k (personal_data p) o))
data_stored-IsOfDm j k p o h =
    subst IsOfDm (sym (load-store j k (personal_data p) o)) (by_key (text_eq k j))
  where
    by_key : (b : Bool) → IsOfDm (if b then some (personal_data p) else load j o)
    by_key true = tt
    by_key false = h

-- Personal data that is stored, under any identifier.
pub data_stored-IsSafe :
    (k : Text) (p : PersonalData) (b : PosPlayBridge)
    → IsSafe b
    → IsIndexed (personal_data p)
    → IsSafe (record b { ongoing = store k (personal_data p) b.ongoing })
unfolding sent_to
data_stored-IsSafe k p b s i = record {
  indexed = store-IsIndexed k (personal_data p) b.ongoing i s.indexed;
  sent = λ m x h. data_stored-IsOfDm x.1 k p b.ongoing (s.sent m x h);
}

-- An event that is removed.
pub delete-IsSafe :
    (k : Text) (b : PosPlayBridge) → IsSafe b → IsSafe (record b { ongoing = delete k b.ongoing })
unfolding sent_to
delete-IsSafe k b s = record {
  indexed = λ j w e. s.indexed j w (kept_is j k w b.ongoing e);
  sent = λ m x h.
      subst IsOfDm (sym (load-delete x.1 k b.ongoing))
        (by_key (text_eq k x.1) (load x.1 b.ongoing) (s.sent m x h));
}
  where
    by_key : (b : Bool) (old : Option OngoingEvent) → IsOfDm old → IsOfDm (if b then none else old)
    by_key true old h = tt
    by_key false old h = h

Has-delete_key :
    (user : ℕ) (x : ℕ × Text) (xs : List (ℕ × Text)) → Has x (delete_key user xs) → Has x xs
unfolding delete_key
Has-delete_key user x [] h = h
Has-delete_key user x (y ∷ xs) h = elim (Bool-cases (y.0 == user)) [
  | inl q ↦ inr (Has-delete_key user x xs (rw q at h))
  | inr q ↦ elim (rw q at h) [ inl e ↦ inl e | inr h' ↦ inr (Has-delete_key user x xs h') ]
]

sent_after :
    (message j : Text) (x : ℕ × Text) (users : List (ℕ × Text)) (b b' : PosPlayBridge)
    → b'.sent_choices ≡ store message users b.sent_choices
    → Has x (sent_to j b')
    → Has x users ⊎ Has x (sent_to j b)
unfolding sent_to
sent_after message j x users b b' e h = by_key (text_eq message j) (load j b.sent_choices) (
    subst (λ o. Has x (elim o [ none ↦ [] | some us ↦ us ]))
      (ap (load j) e ∙ load-store j message users b.sent_choices) h)
  where
    by_key :
        (k : Bool) (old : Option (List (ℕ × Text)))
        → Has x (elim (if k then some users else old) [ none ↦ [] | some us ↦ us ])
        → Has x users ⊎ Has x (elim old [ none ↦ [] | some us ↦ us ])
    by_key true old m = inl m
    by_key false old m = inr m

data_stored_there :
    (m : Text) (p : PersonalData) (o : List (Text × OngoingEvent))
    → IsOfDm (load m (store m (personal_data p) o))
data_stored_there m p o =
    subst IsOfDm (sym (load-store m m (personal_data p) o)) (rw (text_eq_refl m) tt)

-- A user who gets a direct message with personal data.
pub sent-IsSafe :
    (message m : Text) (user : ℕ) (p : PersonalData) (b : PosPlayBridge)
    → IsSafe b
    → IsIndexed (personal_data p)
    → IsSafe (record b {
      sent_choices = store message (set_key user m (sent_to message b)) b.sent_choices;
      ongoing = store m (personal_data p) b.ongoing;
    })
unfolding set_key
sent-IsSafe message m user p b s i = record {
  indexed = store-IsIndexed m (personal_data p) b.ongoing i s.indexed;
  sent = λ j x h. elim (sent_after message j x (set_key user m (sent_to message b)) b _ refl h) [
    | inl (inl e) ↦
        subst (λ (y : ℕ × Text). IsOfDm (load y.1 (store m (personal_data p) b.ongoing))) e
          (data_stored_there m p b.ongoing)
    | inl (inr h') ↦
        data_stored-IsOfDm x.1 m p b.ongoing
          (s.sent message x (Has-delete_key user x (sent_to message b) h'))
    | inr h' ↦ data_stored-IsOfDm x.1 m p b.ongoing (s.sent j x h')
  ];
}

-- A multiple-choice quiz that starts, under an identifier of no direct message.
pub choices_started-IsSafe :
    (message : Text) (event : MultipleChoiceQuizEvent) (b : PosPlayBridge)
    → IsSafe b
    → event.answer < length event.choices
    → IsNoDm message b
    → IsSafe (record b {
      sent_choices = store message [] b.sent_choices;
      ongoing = store message (multiple_choice_quiz_event event) b.ongoing;
    })
choices_started-IsSafe message event b s i new = record {
  indexed = store-IsIndexed message (multiple_choice_quiz_event event) b.ongoing i s.indexed;
  sent = λ j x h. elim (sent_after message j x [] b _ refl h) [
    | inl none_yet ↦ absurd none_yet
    | inr h' ↦
        subst IsOfDm (sym (load-store x.1 message (multiple_choice_quiz_event event) b.ongoing))
          (rw (new j x h') (s.sent j x h'))
  ];
}

dm-IsReady :
    (v : Option OngoingEvent)
    → IsOfDm v
    → ((w : OngoingEvent) → v ≡ some w → IsIndexed w)
    → IsReady v
dm-IsReady none h i = tt
dm-IsReady (some (reaction_event event)) h i = h
dm-IsReady (some (quiz_event event)) h i = h
dm-IsReady (some (multiple_choice_quiz_event event)) h i = h
dm-IsReady (some (personal_data p)) h i =
    λ answered. let (right, given) = i (personal_data p) refl in ground (arith, given answered)

dms-AllReady :
    (users : List (ℕ × Text)) (b : PosPlayBridge)
    → ((k : Text) (v : OngoingEvent) → load k b.ongoing ≡ some v → IsIndexed v)
    → ((x : ℕ × Text) → Has x users → IsOfDm (load x.1 b.ongoing))
    → AllReady users b.ongoing
dms-AllReady [] b i h = tt
dms-AllReady (x ∷ users) b i h = (
  dm-IsReady (load x.1 b.ongoing) (h x (inl refl)) (i x.1),
  dms-AllReady users b i (λ y m. h y (inr m)),
)

-- Then no event panics when it ends.
pub IsSafe-IsEndable : (v : OngoingEvent) (b : PosPlayBridge) → IsSafe b → IsEndable v b
IsSafe-IsEndable (reaction_event event) b s = tt
IsSafe-IsEndable (quiz_event event) b s = tt
IsSafe-IsEndable (multiple_choice_quiz_event event) b s =
    dms-AllReady (sent_to event.choice_quiz.message_id b) b s.indexed
      (s.sent event.choice_quiz.message_id)
IsSafe-IsEndable (personal_data p) b s = tt
