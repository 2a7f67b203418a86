-- ===== src/Events/Attempts.antt =====
-- The answers of all users to a quiz, and the rewards that follow from them alone.
use disturbancesmlx.Prelude.{
  ℕ, ◌+◌, ◌^◌, ◌≤◌, ◌<◌, min, ◌≡◌, ◌∙◌, inl, inr, Bool, not, ◌&&◌, ◌||◌, List, [], ◌∷◌, arith,
  length, at_key, at_key-set_key, count, ltb, leb, ◌==◌, if◌then◌else◌, Bool-cases, ◌%◌, refl, ap,
  subst, true, false,
}
use disturbancesmlx.Events.Bridge.{WinCallback, win}
use disturbancesmlx.Texts.{Text, text_eq}
use disturbancesmlx.Events.Messages.{judge_answer}
use disturbancesmlx.Events.Model.{QuizEvent}

module _ {D : Type 0} (on_win : WinCallback D) (event : QuizEvent) (answer : Text) (d : D) where
  -- The log has the latest answer first, each with its user. This is what the handler of messages
  -- leaves after all of them.
  unfoldable pub answer_log : List (ℕ × Text) → QuizEvent × D
  answer_log [] = (event, d)
  answer_log ((user, text) ∷ log) =
      let (event', d') = answer_log log in (judge_answer on_win user event' answer text d').0

  -- How often the user was wrong.
  abbrev pub mistakes : ℕ → List (ℕ × Text) → ℕ
  mistakes user log = count (λ x. x.0 == user && not (text_eq answer x.1)) log

  -- Whether the user may still answer.
  abbrev pub may_answer : ℕ → List (ℕ × Text) → Bool
  may_answer user log = event.max_attempts == 0 || ltb (mistakes user log) event.max_attempts

  -- The callback is called for each right answer of a user who may still answer.
  unfoldable pub rewards_log : List (ℕ × Text) → D
  rewards_log [] = d
  rewards_log ((user, text) ∷ log) =
      let before = rewards_log log in
      if text_eq answer text && may_answer user log
      then (win on_win user event.quiz "DISCORD_CHALLENGE_EVENT" before).0
      else before

  -- What the tally of a user has.
  abbrev pub tally_of : ℕ → List (ℕ × Text) → ℕ
  tally_of user log =
      if event.max_attempts == 0
      then mistakes user log
      else min (mistakes user log) event.max_attempts

  mistakes_bound : (user : ℕ) (log : List (ℕ × Text)) → mistakes user log ≤ length log
  mistakes_bound user [] = omega arith
  mistakes_bound user (x ∷ log) = ground (arith, mistakes_bound user log)

  record IsLogged (log : List (ℕ × Text)) (x : QuizEvent × D) : Type 0 where
    same_quiz : x.0.quiz ≡ event.quiz
    same_attempts : x.0.max_attempts ≡ event.max_attempts
    tallied : (user : ℕ) → at_key 0 user x.0.attempt_tally ≡ tally_of user log
    rewarded : x.1 ≡ rewards_log log

  exceeded_iff :
      (m n : ℕ) → (ltb 0 n && leb n (if n == 0 then m else min m n)) ≡ not (n == 0 || ltb m n)
  exceeded_iff m n = ground arith

  -- The check of the handler is that the user may not answer.
  checked :
      (user : ℕ) (log : List (ℕ × Text)) (x : QuizEvent × D)
      → IsLogged log x
      → (ltb 0 x.0.max_attempts && leb x.0.max_attempts (at_key 0 user x.0.attempt_tally))
        ≡ not (may_answer user log)
  checked user log x i =
      rw (i.same_attempts, i.tallied user) (exceeded_iff (mistakes user log) event.max_attempts)

  choose :
      (b : Bool) (new old t : ℕ)
      → (b ≡ true → new ≡ t)
      → (b ≡ false → old ≡ t)
      → (if b then new else old) ≡ t
  choose b new old t h k = ground arith

  by_user :
      (new user u : ℕ) (text : Text) (log : List (ℕ × Text)) (x : QuizEvent × D)
      → IsLogged log x
      → new ≡ tally_of user ((user, text) ∷ log)
      → (if user == u then new else at_key 0 u x.0.attempt_tally) ≡ tally_of u ((user, text) ∷ log)
  by_user new user u text log x i e =
      choose (user == u) new (at_key 0 u x.0.attempt_tally) (tally_of u ((user, text) ∷ log))
        (λ p.
          let same : user ≡ u = ground arith in
          subst (λ k. new ≡ tally_of k ((user, text) ∷ log)) same e)
        (λ p. i.tallied u ∙ ground arith)

  next_tally : ℕ → ℕ → ℕ
  next_tally m n = if n == 0 then m else min m n

  more_mistakes :
      (m n : ℕ) (mistaken : Bool)
      → (n == 0 || ltb m n) ≡ false
      → next_tally m n ≡ next_tally ((if mistaken then 1 else 0) + m) n
  unfolding next_tally
  more_mistakes m n mistaken e = ground arith

  no_mistake :
      (m n user : ℕ) (right : Bool)
      → right ≡ true
      → next_tally m n ≡ next_tally ((if user == user && not right then 1 else 0) + m) n
  unfolding next_tally
  no_mistake m n user right e = ground arith

  one_mistake :
      (m n user : ℕ) (right : Bool)
      → m + 1 < 2 ^ 64
      → (n == 0 || ltb m n) ≡ true
      → right ≡ false
      → (next_tally m n + 1) % 2 ^ 64
        ≡ next_tally ((if user == user && not right then 1 else 0) + m) n
  unfolding next_tally
  one_mistake m n user right short e q = ground arith

  judged :
      (user : ℕ) (text : Text) (log : List (ℕ × Text)) (x : QuizEvent × D)
      → length log + 1 < 2 ^ 64
      → IsLogged log x
      → IsLogged ((user, text) ∷ log) (judge_answer on_win user x.0 answer text x.1).0
  unfolding judge_answer rewards_log next_tally
  judged user text log x short i = elim (Bool-cases (may_answer user log)) [
    | inr e ↦
        rw (judge_answer, checked user log x i, e)
          (record {
            same_quiz = i.same_quiz;
            same_attempts = i.same_attempts;
            tallied = λ u.
                at_key-set_key 0 _ u user _
                ∙ by_user _ user u text log x i (
                    i.tallied user
                    ∙ more_mistakes (mistakes user log) event.max_attempts
                        (user == user && not (text_eq answer text)) e);
            rewarded = i.rewarded ∙ rw e (ground arith);
          })
    | inl e ↦ elim (Bool-cases (text_eq answer text)) [
      | inl q ↦
          rw (judge_answer, checked user log x i, e, q)
            (record {
              same_quiz = i.same_quiz;
              same_attempts = i.same_attempts;
              tallied = λ u.
                  at_key-set_key 0 _ u user _
                  ∙ by_user _ user u text log x i (
                      i.tallied user
                      ∙ no_mistake (mistakes user log) event.max_attempts user (text_eq answer text)
                          q);
              rewarded = rw (q, e, i.same_quiz, i.rewarded) refl;
            })
      | inr q ↦
          rw (judge_answer, checked user log x i, e, q)
            (record {
              same_quiz = i.same_quiz;
              same_attempts = i.same_attempts;
              tallied = λ u.
                  at_key-set_key 0 _ u user _
                  ∙ by_user _ user u text log x i (
                      ap (λ k. (k + 1) % 2 ^ 64) (i.tallied user)
                      ∙ one_mistake (mistakes user log) event.max_attempts user
                          (text_eq answer text) (omega (arith, mistakes_bound user log)) e q);
              rewarded = i.rewarded ∙ rw q refl;
            })
    ]
  ]

  answer_log-IsLogged :
      (log : List (ℕ × Text))
      → length log < 2 ^ 64
      → event.attempt_tally ≡ []
      → IsLogged log (answer_log log)
  unfolding answer_log rewards_log at_key
  answer_log-IsLogged [] short new = record {
    same_quiz = refl;
    same_attempts = refl;
    tallied = λ user. rw new (ground arith);
    rewarded = refl;
  }
  answer_log-IsLogged ((user, text) ∷ log) short new =
      judged user text log (answer_log log) (omega arith)
        (answer_log-IsLogged log (omega arith) new)

  -- From an empty tally and with less than 2^64 answers: what the callback leaves is what it leaves
  -- when it is called for the right answers alone, in their order, each of a user with fewer wrong
  -- answers before it than the limit, or with no limit. The tally of a user has the number of the
  -- wrong answers, up to the limit.
  pub answer_log_lem :
      (log : List (ℕ × Text))
      → length log < 2 ^ 64
      → event.attempt_tally ≡ []
      → ((answer_log log).1 ≡ rewards_log log)
        × ((user : ℕ) → at_key 0 user (answer_log log).0.attempt_tally ≡ tally_of user log)
  answer_log_lem log short new =
      let i = answer_log-IsLogged log short new in (i.rewarded, i.tallied)
