-- ===== src/Network/LobbyLines.antt =====
-- What the lines of utils.SchedulesToLines tell of each day.
use disturbancesmlx.Prelude.{
  ℕ, ◌≡◌, Bool, true, false, ◌&&◌, ◌||◌, Option, none, some, List, [], ◌∷◌, leb, ◌==◌,
  if◌then◌else◌, refl, inl, inr, not, arith, Bool-cases, sym, ap, ◌∙◌, ◌++◌, map,
}
use disturbancesmlx.Network.Lobby.{
  on_weekday, on_year_day, only_holidays, weekends_and_holidays, working_days, every_day,
  LobbySchedule, compare_schedules, DayKey, holidays, weekday, Label, every_day, working_days,
  weekends_and_holidays, only_holidays, on_year_day, Line, Week, lines_for, by_day, week_of,
  weekdays_all_the_same, holidays_all_the_same, all_days_the_same, week_lines, exception_lines,
  schedules_to_lines,
}

-- When a lobby is open: from when and for how long, or not at all.
unfoldable pub hours : LobbySchedule → Option (ℕ × ℕ)
hours s = if s.opened then some (s.open_time, s.open_duration) else none

compare-hours : (s t : LobbySchedule) → compare_schedules s t ≡ true → hours s ≡ hours t
unfolding compare_schedules hours
compare-hours s t e = elim (Bool-cases s.opened) [
  | inl p ↦ elim (Bool-cases t.opened) [
    | inl q ↦
        let times : s.open_time ≡ t.open_time = ground arith in
        let durations : s.open_duration ≡ t.open_duration = ground arith in
        rw (p, q) (cc (times, durations))
    | inr q ↦ absurd (ground arith)
  ]
  | inr p ↦ elim (Bool-cases t.opened) [ inl q ↦ absurd (ground arith) | inr q ↦ rw (p, q) refl ]
]

-- Whether a line is for the day.
abbrev pub covers : Label → DayKey → Bool
covers every_day holidays = true
covers every_day (weekday d) = leb d 6
covers working_days holidays = false
covers working_days (weekday d) = leb 1 d && leb d 5
covers weekends_and_holidays holidays = true
covers weekends_and_holidays (weekday d) = d == 0 || d == 6
covers only_holidays holidays = true
covers only_holidays (weekday d) = false
covers (on_weekday e) holidays = false
covers (on_weekday e) (weekday d) = e == d
covers (on_year_day n) key = false

-- What the first line for the day tells; `none` if there is no such line.
abbrev pub told : DayKey → List Line → Option (Option (ℕ × ℕ))
told key [] = none
told key (l ∷ ls) = if covers l.0 key then some (hours l.1) else told key ls

-- What the schedules of the week say.
abbrev pub hours_on : DayKey → Week → Option (Option (ℕ × ℕ))
hours_on holidays w = some (hours w.on_holidays)
hours_on (weekday d) w =
    if d == 0
    then some (hours w.sunday)
    else if d == 1
    then some (hours w.monday)
    else if d == 2
    then some (hours w.tuesday)
    else if d == 3
    then some (hours w.wednesday)
    else if d == 4
    then some (hours w.thursday)
    else if d == 5
    then some (hours w.friday)
    else if d == 6
    then some (hours w.saturday)
    else none

abbrev pub is_monday : DayKey → Bool
is_monday holidays = false
is_monday (weekday d) = d == 1

-- What the flags say of the hours.
record IsSame (all_days weekdays weekends : Bool) (w : Week) : Type 0 where
  all_weekdays : all_days ≡ true → weekdays ≡ true
  all_weekends : all_days ≡ true → weekends ≡ true
  all_holidays : all_days ≡ true → hours w.on_holidays ≡ hours w.tuesday
  on_tuesday : weekdays ≡ true → hours w.monday ≡ hours w.tuesday
  on_wednesday : weekdays ≡ true → hours w.monday ≡ hours w.wednesday
  on_thursday : weekdays ≡ true → hours w.monday ≡ hours w.thursday
  on_friday : weekdays ≡ true → hours w.monday ≡ hours w.friday
  on_sunday : weekends ≡ true → hours w.on_holidays ≡ hours w.sunday
  on_saturday : weekends ≡ true → hours w.saturday ≡ hours w.sunday

told_lines :
    (all_days weekdays weekends : Bool) (w : Week) (key : DayKey)
    → IsSame all_days weekdays weekends w
    → told key (lines_for all_days weekdays weekends w)
      ≡ (if is_monday key && not weekdays then none else hours_on key w)
unfolding lines_for
told_lines true wd h w holidays s = ap some (sym (s.on_sunday (s.all_weekends refl)))
told_lines false true true w holidays s = ap some (sym (s.on_sunday refl))
told_lines false false true w holidays s = ap some (sym (s.on_sunday refl))
told_lines false true false w holidays s = refl
told_lines false false false w holidays s = refl
told_lines true wd h w (weekday d) s =
    let wd' = s.all_weekdays refl in
    let h' = s.all_weekends refl in
    let a = s.on_tuesday wd' in
    let b = s.on_wednesday wd' in
    let c = s.on_thursday wd' in
    let e = s.on_friday wd' in
    let f = s.on_sunday h' in
    let g = s.on_saturday h' in let i = s.all_holidays refl in rw wd' (ground arith)
told_lines false true true w (weekday d) s =
    let a = s.on_tuesday refl in
    let b = s.on_wednesday refl in
    let c = s.on_thursday refl in
    let e = s.on_friday refl in
    let f = s.on_sunday refl in let g = s.on_saturday refl in ground arith
told_lines false true false w (weekday d) s =
    let a = s.on_tuesday refl in
    let b = s.on_wednesday refl in
    let c = s.on_thursday refl in let e = s.on_friday refl in ground arith
told_lines false false true w (weekday d) s = let g = s.on_saturday refl in ground arith
told_lines false false false w (weekday d) s = ground arith

week-IsSame :
    (w : Week) → IsSame (all_days_the_same w) (weekdays_all_the_same w) (holidays_all_the_same w) w
week-IsSame w = record {
  all_weekdays = λ e. ground arith;
  all_weekends = λ e. ground arith;
  all_holidays = λ e. compare-hours w.on_holidays w.tuesday (ground arith);
  on_tuesday = λ e. compare-hours w.monday w.tuesday (ground arith);
  on_wednesday = λ e. compare-hours w.monday w.wednesday (ground arith);
  on_thursday = λ e. compare-hours w.monday w.thursday (ground arith);
  on_friday = λ e. compare-hours w.monday w.friday (ground arith);
  on_sunday = λ e. compare-hours w.on_holidays w.sunday (ground arith);
  on_saturday = λ e. compare-hours w.saturday w.sunday (ground arith);
}

told-exceptions :
    (key : DayKey) (ls : List Line) (ss : List LobbySchedule)
    → told key (ls ++ map (λ s. (on_year_day s.day, s)) ss) ≡ told key ls
told-exceptions key [] [] = refl
told-exceptions key [] (s ∷ ss) = told-exceptions key [] ss
told-exceptions key (l ∷ ls) ss =
    ap (λ t. if covers l.0 key then some (hours l.1) else t) (told-exceptions key ls ss)

-- When no schedule is missing, SchedulesToLines does not panic, and the first of its lines for a day
-- of the week, or for holidays, tells when the lobby is open on that day. There is one exception: if
-- the working days differ, no line is for Mondays.
pub schedules_to_lines_lem :
    (current_day : Option ℕ) (ss : List LobbySchedule) (w : Week)
    → week_of (λ key. by_day key ss) ≡ some w
    → (lines : List Line) × (schedules_to_lines current_day ss ≡ some lines)
      × ((key : DayKey)
          → told key lines
            ≡ (if is_monday key && not (weekdays_all_the_same w) then none else hours_on key w))
unfolding schedules_to_lines week_lines exception_lines
schedules_to_lines_lem none ss w e =
    (week_lines w, rw (schedules_to_lines, e) refl, λ key. told_lines _ _ _ w key (week-IsSame w))
schedules_to_lines_lem (some d) ss w e = (
  week_lines w ++ exception_lines d ss,
  rw (schedules_to_lines, e) refl,
  λ key. told-exceptions key (week_lines w) _ ∙ told_lines _ _ _ w key (week-IsSame w),
)
