-- ===== src/Scraper/Conditions.antt =====
-- scraper/mlxscraper/conditions.go: the condition of a line, from the answer of the service. Texts
-- are their bytes here.
use disturbancesmlx.Prelude.{
  ℕ, ◌≡◌, refl, Bool, true, false, not, ◌&&◌, ◌||◌, Option, none, some, List, [], ◌∷◌, ℤ, pos, ◌*ℤ◌,
  ◌==◌, if◌then◌else◌,
}
use disturbancesmlx.Clock.{Time, Duration, wrap_int64}
use disturbancesmlx.Scraper.Etas.{is_empty}
use disturbancesmlx.Texts.{Text}

-- types.LineCondition, without its identifier and its source
pub record LineCondition : Type 0 where
  pub condition_time : Time
  pub condition_line : ℕ
  pub train_cars : ℤ
  pub train_frequency : Duration

-- The fields of lineCondition that are read. Where the decoding fails, they are what is decoded up
-- to then, or empty.
pub record Frequency : Type 0 where
  pub linha : Text
  pub intervalo : Text
  pub cars_of_unit : ℤ

-- A response of status 200 that is not too big, with its body read: whether it decodes, whether it
-- decodes as the alternative, and whether uuid.NewV4 gives an identifier.
pub record FrequencyAnswer : Type 0 where
  pub frequency : Frequency
  pub is_decoded : Bool
  pub is_alternative : Bool
  pub has_new_id : Bool
  pub answer_time : Time

-- The day type of the request, for the day of the week and the day of the year.
unfoldable pub day_type : List ℕ → (weekday year_day : ℕ) → ℕ
day_type holidays weekday year_day =
    if weekday == 6 || weekday == 0 || is_holiday_in holidays year_day then b'F' else b'S'
  where
    is_holiday_in : List ℕ → ℕ → Bool
    is_holiday_in [] d = false
    is_holiday_in (h ∷ hs) d = h == d || is_holiday_in hs d

-- freqStr[0:2] + "m" + freqStr[3:5] + "s" for a text of 8 bytes; `none` for any other.
unfoldable pub frequency_text : Text → Option Text
frequency_text (a ∷ b ∷ c ∷ d ∷ e ∷ f ∷ g ∷ h ∷ []) = some (a ∷ b ∷ b'm' ∷ d ∷ e ∷ b's' ∷ [])
frequency_text text = none

-- What fetchConditionsForLine leads to: an error, nothing, or a call of the callback.
pub data ConditionOutcome : Type 0 where
  condition_error no_condition : ConditionOutcome
  condition_found : LineCondition → ConditionOutcome

module _ (parse_duration : Text → Option Duration) where
  -- The answer is `none` if the request fails or the response is refused. `parse_duration` is
  -- time.ParseDuration.
  unfoldable pub fetch_conditions_for_line : ℕ → Option FrequencyAnswer → ConditionOutcome
  fetch_conditions_for_line line none = condition_error
  fetch_conditions_for_line line (some a) =
      if not a.is_decoded && not a.is_alternative
      then no_condition
      else if not a.has_new_id
      then condition_error
      else if is_empty a.frequency.linha
      then condition_found (record {
        condition_time = a.answer_time;
        condition_line = line;
        train_cars = pos 0;
        train_frequency = pos 0;
      })
      else elim (frequency_text a.frequency.intervalo) [
        | none ↦ condition_error
        | some text ↦ elim (parse_duration text) [
          | none ↦ condition_error
          | some d ↦ condition_found (record {
            condition_time = a.answer_time;
            condition_line = line;
            train_cars = wrap_int64 (a.frequency.cars_of_unit *ℤ pos 3);
            train_frequency = d;
          })
        ]
      ]

  -- fetchConditions: what the callback gets, and whether there is an error, which ends the loop.
  unfoldable pub fetch_conditions : List (ℕ × Option FrequencyAnswer) → List LineCondition × Bool
  fetch_conditions [] = ([], false)
  fetch_conditions (x ∷ xs) =
      let (found, failed) = fetch_conditions xs in
      elim (fetch_conditions_for_line x.0 x.1) [
        | condition_error ↦ ([], true)
        | no_condition ↦ (found, failed)
        | condition_found c ↦ (c ∷ found, failed)
      ]

  -- An answer that decodes only as the alternative, whatever it says, and has no line, counts as a
  -- network that is closed.
  pub alternative_closes :
      (line : ℕ) (a : FrequencyAnswer)
      → a.is_decoded ≡ false
      → a.is_alternative ≡ true
      → a.has_new_id ≡ true
      → a.frequency.linha ≡ []
      → fetch_conditions_for_line line (some a)
        ≡ condition_found (record {
          condition_time = a.answer_time;
          condition_line = line;
          train_cars = pos 0;
          train_frequency = pos 0;
        })
  unfolding fetch_conditions_for_line
  alternative_closes line a d e n q = rw (d, e, n, q) refl
