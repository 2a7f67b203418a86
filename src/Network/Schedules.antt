-- ===== src/Network/Schedules.antt =====
-- types/line.go, types/lineschedule.go: the schedule that a line keeps on a day.
use disturbancesmlx.Prelude.{
  ℕ, zero, suc, ◌+◌, ◌/◌, Bool, true, false, not, ◌&&◌, Option, none, some, List, [], ◌∷◌, length,
  get_elem?, ltb, leb, ◌==◌, if◌then◌else◌,
}

-- types.LineSchedule; the opening is a time of day.
pub record LineSchedule : Type 0 where
  pub holiday : Bool
  pub day : ℕ
  pub opened : Bool
  pub open_time : ℕ
  pub open_duration : ℕ

-- day.YearDay() and day.Weekday()
pub record Day : Type 0 where
  pub year_day : ℕ
  pub weekday : ℕ

-- One round of the loop of sort.Search, over the half-open interval from i to j.
abbrev pub narrow : (ℕ → Bool) → ℕ → ℕ → ℕ × ℕ
narrow f i j = let h = (i + j) / 2 in if f h then (i, h) else (suc h, j)

-- sort.Search(n, f) starts from 0 and n; `none` is out of fuel.
unfoldable pub search_from : (ℕ → Bool) → ℕ → ℕ → ℕ → Option ℕ
search_from f zero i j = if ltb i j then none else some i
search_from f (suc fuel) i j =
    let next = narrow f i j in
    let rest = search_from f fuel next.0 next.1 in if ltb i j then rest else some i

-- holidays[i] >= x, where i is in range.
abbrev pub at_least : List ℕ → ℕ → ℕ → Bool
at_least xs x i = elim (get_elem? xs i) [ none ↦ true | some y ↦ leb x y ]

-- sort.SearchInts(a, x), with as much fuel as there are numbers.
unfoldable pub search_ints : List ℕ → ℕ → Option ℕ
search_ints xs x = search_from (at_least xs x) (length xs) 0 (length xs)

-- holidayIdx < len(holidays) && holidays[holidayIdx] == x
unfoldable pub is_holiday : List ℕ → ℕ → Bool
is_holiday xs x = elim (search_ints xs x) [
  | none ↦ false
  | some i ↦ elim (get_elem? xs i) [ none ↦ false | some y ↦ y == x ]
]

unfoldable pub first_schedule : (LineSchedule → Bool) → List LineSchedule → Option LineSchedule
first_schedule p [] = none
first_schedule p (s ∷ ss) = if p s then some s else first_schedule p ss

abbrev pub overrides : Day → LineSchedule → Bool
overrides d s = s.holiday && s.day == d.year_day

abbrev pub for_holidays : LineSchedule → Bool
for_holidays s = s.holiday && s.day == 0

abbrev pub for_weekday : Day → LineSchedule → Bool
for_weekday d s = not s.holiday && s.day == d.weekday

abbrev pub or_else {ℓ} : {A : Type ℓ} → Option A → Option A → Option A
or_else none o = o
or_else (some a) o = some a

-- line.getScheduleForDay(day, schedules); `none` is nil.
unfoldable pub get_schedule_for_day : List ℕ → Day → List LineSchedule → Option LineSchedule
get_schedule_for_day holidays d schedules = or_else (first_schedule (overrides d) schedules) (
    or_else (if is_holiday holidays d.year_day then first_schedule for_holidays schedules else none)
      (first_schedule (for_weekday d) schedules))
