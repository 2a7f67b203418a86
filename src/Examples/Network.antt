-- ===== src/Examples/Network.antt =====
-- Schedules and directions of a line of four stations.
use disturbancesmlx.Prelude.{
  ℕ, ◌+◌, ◌-◌, ◌*◌, ◌/◌, ◌%◌, ◌≡◌, refl, ◌≢◌, Bool, true, false, ◌&&◌, Option, none, some, List, [],
  ◌∷◌, arith, leb_ℤ, get_elem?, leb, ◌==◌, if◌then◌else◌, zero, suc, inl, inr,
}
use disturbancesmlx.Clock.{sub}
use disturbancesmlx.Network.Choice.{Sorted, Chosen, get_schedule_for_day-Chosen}
use disturbancesmlx.Network.Direction.{direction_from, get_direction_for_connection}
use disturbancesmlx.Network.Open.{Calendar, spans, get_open_spans}
use disturbancesmlx.Network.Schedules.{
  LineSchedule, Day, search_from, search_ints, is_holiday, first_schedule, get_schedule_for_day,
}
use disturbancesmlx.Network.Spans.{HasWeek, IsCalendar, DaysUntil, parts_on, get_open_spans_lem}
use disturbancesmlx.Network.Terminus.{Unique, terminus, get_direction_for_connection_lem}

-- Monday to Friday as Sunday, Saturday and a holiday apart.
abbrev plain : ℕ → LineSchedule
plain d = record { holiday = false; day = d; opened = true; open_time = 6; open_duration = 18 }

abbrev week_schedules : List LineSchedule
week_schedules =
    record (plain 0) { holiday = true; open_time = 8 }
    ∷ record (plain 100) { holiday = true; open_time = 9 }
    ∷ plain 0
    ∷ plain 1
    ∷ plain 2
    ∷ plain 3
    ∷ plain 4
    ∷ plain 5
    ∷ plain 6
    ∷ []

abbrev christmas : Day
christmas = record { year_day = 359; weekday = 4 }

abbrev holiday_list : List ℕ
holiday_list = 1 ∷ 100 ∷ 115 ∷ 359 ∷ []

in_order_holidays : Sorted holiday_list
in_order_holidays = (omega arith, (omega arith, (omega arith, tt)))

get_schedule_for_day-Chosen_example :
    Chosen holiday_list christmas week_schedules
      (get_schedule_for_day holiday_list christmas week_schedules)
get_schedule_for_day-Chosen_example =
    get_schedule_for_day-Chosen holiday_list christmas week_schedules in_order_holidays

chosen_christmas :
    get_schedule_for_day holiday_list christmas week_schedules
    ≡ some (record (plain 0) { holiday = true; open_time = 8 })
unfolding get_schedule_for_day first_schedule is_holiday search_ints search_from
chosen_christmas = refl

-- Holidays out of order are missed.
missed : is_holiday (359 ∷ 1 ∷ []) 359 ≡ false
unfolding is_holiday search_ints search_from
missed = refl

abbrev line_stations4 : List ℕ
line_stations4 = 11 ∷ 12 ∷ 13 ∷ 14 ∷ []

abbrev thirteen_closed : ℕ → Option Bool
thirteen_closed s = some (s == 13)

at_index : (i a : ℕ) → get_elem? line_stations4 i ≡ some a → a ≡ 11 + i
at_index zero a e = let q : 11 ≡ a = cc in ground arith
at_index (suc zero) a e = let q : 12 ≡ a = cc in ground arith
at_index (suc (suc zero)) a e = let q : 13 ≡ a = cc in ground arith
at_index (suc (suc (suc zero))) a e = let q : 14 ≡ a = cc in ground arith
at_index (suc (suc (suc (suc i)))) a e = cc

no_repeats : Unique line_stations4
no_repeats i j a p q = omega (arith, at_index i a p, at_index j a q)

get_direction_for_connection_lem_example :
    ((i j : ℕ)
      → get_elem? line_stations4 i ≡ some 14
      → get_elem? line_stations4 j ≡ some 12
      → get_direction_for_connection thirteen_closed (some line_stations4) 14 12
        ≡ terminus thirteen_closed line_stations4 i j)
    × (((i : ℕ) → get_elem? line_stations4 i ≢ some 14)
        → get_direction_for_connection thirteen_closed (some line_stations4) 14 12 ≡ none)
get_direction_for_connection_lem_example =
    get_direction_for_connection_lem thirteen_closed line_stations4 no_repeats 14 12

back_over_closed :
    get_direction_for_connection thirteen_closed (some line_stations4) 14 12 ≡ some 11
unfolding get_direction_for_connection direction_from
back_over_closed = refl

abbrev ten : ℕ
ten = 10

abbrev short_days : Calendar
short_days = record {
  next_day = λ t. t + ten;
  previous_day = λ t. t - ten;
  day_of = λ t. record { year_day = 1 + t / ten; weekday = (t / ten) % 7 };
  at_clock = λ t clock. (t / ten) * ten + clock;
  intersection = λ a b.
      if leb a.begins b.begins && leb_ℤ b.lasts a.lasts
      then some (record { begins = b.begins; lasts = b.lasts })
      else none;
}

short_days-IsCalendar : IsCalendar short_days
short_days-IsCalendar = record { advances = λ t. omega arith; week = λ t. omega arith }

whole_week : HasWeek week_schedules
whole_week zero lt = (plain 0, inr (inr (inl refl)), refl, refl)
whole_week (suc zero) lt = (plain 1, inr (inr (inr (inl refl))), refl, refl)
whole_week (suc (suc zero)) lt = (plain 2, inr (inr (inr (inr (inl refl)))), refl, refl)
whole_week (suc (suc (suc zero))) lt = (plain 3, inr (inr (inr (inr (inr (inl refl))))), refl, refl)
whole_week (suc (suc (suc (suc zero)))) lt =
    (plain 4, inr (inr (inr (inr (inr (inr (inl refl)))))), refl, refl)
whole_week (suc (suc (suc (suc (suc zero))))) lt =
    (plain 5, inr (inr (inr (inr (inr (inr (inr (inl refl))))))), refl, refl)
whole_week (suc (suc (suc (suc (suc (suc zero)))))) lt =
    (plain 6, inr (inr (inr (inr (inr (inr (inr (inr (inl refl)))))))), refl, refl)
whole_week (suc (suc (suc (suc (suc (suc (suc w))))))) lt = absurd (omega (arith, lt))

get_open_spans_lem_example :
    (ts : List ℕ) × DaysUntil short_days 125 85 ts
    × (get_open_spans short_days (λ op. false) holiday_list week_schedules 95 115
        ≡ spans (
            parts_on holiday_list week_schedules whole_week short_days
              (λ op. false)
              short_days-IsCalendar
              (record { begins = 95; lasts = sub 115 95 })
              ts))
get_open_spans_lem_example =
    get_open_spans_lem holiday_list week_schedules whole_week short_days (λ op. false)
      short_days-IsCalendar 95 115 refl refl
