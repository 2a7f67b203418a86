-- ===== src/Events/Choices.antt =====
-- The answers to a multiple-choice quiz: the first one counts.
use disturbancesmlx.Prelude.{
  ℕ, ◌+◌, ◌-◌, ◌≡◌, refl, ◌∙◌, true, false, ◌&&◌, Option, none, some, List, [], ◌∷◌, arith, length,
  ltb, leb, if◌then◌else◌, inl, inr, Option-cases, ◌<◌, sym,
}
use disturbancesmlx.Events.Bridge.{
  WinCallback, letter, handle_multiple_choice_quiz_answer, Reaction, react, handle_reaction,
}
use disturbancesmlx.Texts.{Text, text_eq, load, text_eq_refl, load-store}
use disturbancesmlx.Events.Model.{PersonalData, personal_data, PosPlayBridge, find_choice}

-- The choice that the name of an emoji stands for, with `n` choices.
abbrev pub choice_of : ℕ → Text → Option ℕ
choice_of n [] = none
choice_of n (c ∷ []) = if leb 127462 c && ltb c (127462 + n) then some (c - 127462) else none
choice_of n (c ∷ d ∷ ds) = none

found_from : ℕ → ℕ → Text → Option ℕ
found_from k n [] = none
found_from k n (c ∷ []) =
    if leb (127462 + k) c && ltb c (127462 + k + n) then some (c - 127462) else none
found_from k n (c ∷ d ∷ ds) = none

find_choice-from :
    (k : ℕ) (choices : List Text) (emoji : Text)
    → find_choice (λ i choice. text_eq (letter i) emoji) k choices
      ≡ found_from k (length choices) emoji
unfolding find_choice found_from text_eq
find_choice-from k [] [] = refl
find_choice-from k [] (c ∷ []) = ground arith
find_choice-from k [] (c ∷ d ∷ ds) = refl
find_choice-from k (x ∷ choices) [] = find_choice-from (k + 1) choices []
find_choice-from k (x ∷ choices) (c ∷ []) =
    ground (arith, find_choice-from (k + 1) choices (c ∷ []))
find_choice-from k (x ∷ choices) (c ∷ d ∷ ds) =
    ground (arith, find_choice-from (k + 1) choices (c ∷ d ∷ ds))

-- The search of the handler finds the choice of the emoji.
pub find_choice_lem :
    (choices : List Text) (emoji : Text)
    → find_choice (λ i choice. text_eq (letter i) emoji) 0 choices
      ≡ choice_of (length choices) emoji
unfolding found_from
find_choice_lem choices [] = find_choice-from 0 choices []
find_choice_lem choices (c ∷ []) = find_choice-from 0 choices (c ∷ []) ∙ ground arith
find_choice_lem choices (c ∷ d ∷ ds) = find_choice-from 0 choices (c ∷ d ∷ ds)

choice_of_bound : (n : ℕ) (emoji : Text) (i : ℕ) → choice_of n emoji ≡ some i → i < n
choice_of_bound n [] i e = cc
choice_of_bound n (c ∷ []) i e = ground arith
choice_of_bound n (c ∷ d ∷ ds) i e = cc

-- The choice that is found is one.
pub find_choice_bound :
    (choices : List Text) (emoji : Text) (i : ℕ)
    → find_choice (λ k choice. text_eq (letter k) emoji) 0 choices ≡ some i
    → i < length choices
find_choice_bound choices emoji i e =
    choice_of_bound (length choices) emoji i (sym (find_choice_lem choices emoji) ∙ e)

-- The choice of the first reaction that stands for one and could be confirmed by a message.
abbrev pub first_choice : ℕ → List Reaction → Option ℕ
first_choice n [] = none
first_choice n (r ∷ rs) = elim r.reaction_dm [
  | none ↦ first_choice n rs
  | some m ↦ elim (choice_of n r.emoji_name) [ none ↦ first_choice n rs | some i ↦ some i ]
]

first_choice-cons :
    (n : ℕ) (r : Reaction) (rs : List Reaction)
    → first_choice n (r ∷ rs)
      ≡ elim (first_choice n (r ∷ [])) [ none ↦ first_choice n rs | some i ↦ some i ]
first_choice-cons n r rs = elim (Option-cases r.reaction_dm) [
  | inl m ↦ rw m refl
  | inr (sent, m) ↦ elim (Option-cases (choice_of n r.emoji_name)) [
    | inl c ↦ rw (m, choice_of, c) refl
    | inr (i, c) ↦ rw (m, choice_of, c) refl
  ]
]

-- The personal data with the choice, if there is one.
abbrev pub settled : PersonalData → Option ℕ → PersonalData
settled p none = p
settled p (some i) = record p { given_answer = i; answered = true }

module _ {D : Type 0} (on_win : WinCallback D) where
  -- The reactions to a message, the earliest first.
  unfoldable pub handle_reactions : Text → List Reaction → PosPlayBridge → D → PosPlayBridge × D
  handle_reactions dm [] b d = (b, d)
  handle_reactions dm (r ∷ rs) b d =
      let x = handle_reaction on_win (record r { reaction_message = dm }) b d in
      handle_reactions dm rs x.0 x.1

  one_reaction :
      (dm : Text) (r : Reaction) (b : PosPlayBridge) (d : D) (p : PersonalData)
      → load dm b.ongoing ≡ some (personal_data p)
      → p.answered ≡ false
      → let x = handle_reaction on_win (record r { reaction_message = dm }) b d in
        (load dm x.0.ongoing
          ≡ some (personal_data (settled p (first_choice (length p.of_event.choices) (r ∷ [])))))
        × (x.1 ≡ d)
  unfolding handle_reaction react handle_multiple_choice_quiz_answer
  one_reaction dm r b d p e fresh =
      let found = find_choice_lem p.of_event.choices r.emoji_name in
      elim (Option-cases (choice_of (length p.of_event.choices) r.emoji_name)) [
        | inl c ↦
            rw (handle_reaction, e, fresh, found, c)
              (elim (Option-cases r.reaction_dm) [
                | inl m ↦ rw m (rw fresh at e, refl)
                | inr (sent, m) ↦ rw (m, choice_of, c) (rw fresh at e, refl)
              ])
        | inr (i, c) ↦ elim (Option-cases r.reaction_dm) [
          | inl m ↦ rw (handle_reaction, e, fresh, found, c, m) (rw fresh at e, refl)
          | inr (sent, m) ↦
              rw (handle_reaction, e, fresh, found, c, m)
                (load-store dm dm _ b.ongoing ∙ rw (text_eq_refl dm, choice_of, c) refl, refl)
        ]
      ]

  answered_reaction :
      (dm : Text) (r : Reaction) (b : PosPlayBridge) (d : D) (p : PersonalData)
      → load dm b.ongoing ≡ some (personal_data p)
      → p.answered ≡ true
      → let x = handle_reaction on_win (record r { reaction_message = dm }) b d in
        (load dm x.0.ongoing ≡ some (personal_data p)) × (x.1 ≡ d)
  unfolding handle_reaction react handle_multiple_choice_quiz_answer
  answered_reaction dm r b d p e done = rw (handle_reaction, e, done) (rw done at e, refl)

  answered_reactions :
      (dm : Text) (rs : List Reaction) (b : PosPlayBridge) (d : D) (p : PersonalData)
      → load dm b.ongoing ≡ some (personal_data p)
      → p.answered ≡ true
      → let x = handle_reactions dm rs b d in
        (load dm x.0.ongoing ≡ some (personal_data p)) × (x.1 ≡ d)
  unfolding handle_reactions
  answered_reactions dm [] b d p e done = (e, refl)
  answered_reactions dm (r ∷ rs) b d p e done =
      let (kept, same) = answered_reaction dm r b d p e done in
      let (kept', same') = answered_reactions dm rs _ _ p kept done in (kept', same' ∙ same)

  -- The personal data under a message, and what follows from it, after reactions to the message:
  -- if the user had not answered, the answer is the choice of the first reaction that stands for
  -- one and could be confirmed by a message, and no later reaction changes it. Nothing is rewarded.
  pub handle_reactions_lem :
      (dm : Text) (rs : List Reaction) (b : PosPlayBridge) (d : D) (p : PersonalData)
      → load dm b.ongoing ≡ some (personal_data p)
      → p.answered ≡ false
      → let x = handle_reactions dm rs b d in
        (load dm x.0.ongoing
          ≡ some (personal_data (settled p (first_choice (length p.of_event.choices) rs))))
        × (x.1 ≡ d)
  unfolding handle_reactions
  handle_reactions_lem dm [] b d p e fresh = (e, refl)
  handle_reactions_lem dm (r ∷ rs) b d p e fresh =
      let n = length p.of_event.choices in
      let (one, same) = one_reaction dm r b d p e fresh in
      elim (Option-cases (first_choice n (r ∷ []))) [
        | inl c ↦
            let (rest, same') = handle_reactions_lem dm rs _ _ p (rw c at one) fresh in
            (rest ∙ rw (first_choice-cons n r rs, c) refl, same' ∙ same)
        | inr (i, c) ↦
            let (rest, same') =
              answered_reactions dm rs _ _ (settled p (some i)) (rw c at one) refl in
            (rest ∙ rw (first_choice-cons n r rs, c) refl, same' ∙ same)
      ]
