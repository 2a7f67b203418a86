-- ===== src/Network/Lobby.antt =====
-- types/lobbyschedule.go and utils.SchedulesToLines: the schedules of a lobby as lines for people.
use disturbancesmlx.Prelude.{
  ℕ, ◌-◌, Bool, true, false, not, ◌&&◌, ◌||◌, Option, none, some, List, [], ◌∷◌, ◌++◌, map, select,
  sort_by, leb, ◌==◌, if◌then◌else◌,
}

-- types.LobbySchedule, without the lobby
pub record LobbySchedule : Type 0 where
  pub holiday : Bool
  pub day : ℕ
  pub opened : Bool
  pub open_time : ℕ
  pub open_duration : ℕ

-- schedule.Compare(s2)
unfoldable pub compare_schedules : LobbySchedule → LobbySchedule → Bool
compare_schedules s s2 =
    (not s.opened && not s2.opened)
    || ((s.opened && s2.opened || not s.opened && not s2.opened)
        && s.open_time == s2.open_time
        && s.open_duration == s2.open_duration)

-- The keys of schedulesByDay: -1, for holidays, and the days of the week.
pub data DayKey : Type 0 where
  holidays : DayKey
  weekday : ℕ → DayKey

abbrev pub same_key : DayKey → DayKey → Bool
same_key holidays holidays = true
same_key holidays (weekday d) = false
same_key (weekday d) holidays = false
same_key (weekday d) (weekday e) = d == e

-- Where a schedule goes; `none` is among the exceptions.
abbrev pub key_of : LobbySchedule → Option DayKey
key_of s = if s.holiday then (if s.day == 0 then some holidays else none) else some (weekday s.day)

-- schedulesByDay[key]: the last schedule of the key, or nil.
unfoldable pub by_day : DayKey → List LobbySchedule → Option LobbySchedule
by_day key [] = none
by_day key (s ∷ ss) =
    let rest = by_day key ss in
    elim rest [
      | some t ↦ some t
      | none ↦ elim (key_of s) [ none ↦ none | some k ↦ if same_key k key then some s else none ]
    ]

abbrev is_exception : LobbySchedule → Bool
is_exception s = s.holiday && not (s.day == 0)

-- A line of the text: which days it is for, and the schedule that scheduleToString prints.
pub data Label : Type 0 where
  every_day working_days weekends_and_holidays only_holidays : Label
  on_weekday : ℕ → Label
  on_year_day : ℕ → Label

abbrev pub Line : Type 0
Line = Label × LobbySchedule

-- The schedules of holidays and of the days from Sunday to Saturday.
pub record Week : Type 0 where
  pub on_holidays : LobbySchedule
  pub sunday : LobbySchedule
  pub monday : LobbySchedule
  pub tuesday : LobbySchedule
  pub wednesday : LobbySchedule
  pub thursday : LobbySchedule
  pub friday : LobbySchedule
  pub saturday : LobbySchedule

need : {A B : Type 0} → Option A → (A → Option B) → Option B
need none f = none
need (some a) f = f a

-- All of them are compared or printed, so a missing one is a nil pointer and panics: `none`.
unfoldable pub week_of : (DayKey → Option LobbySchedule) → Option Week
unfolding need
week_of find = need (find holidays) λ h. need (find (weekday 0)) λ s0. need (find (weekday 1)) λ s1.
    need (find (weekday 2)) λ s2. need (find (weekday 3)) λ s3. need (find (weekday 4)) λ s4.
      need (find (weekday 5)) λ s5. need (find (weekday 6)) λ s6. some (record {
        on_holidays = h;
        sunday = s0;
        monday = s1;
        tuesday = s2;
        wednesday = s3;
        thursday = s4;
        friday = s5;
        saturday = s6;
      })

abbrev pub weekdays_all_the_same : Week → Bool
weekdays_all_the_same w =
    compare_schedules w.monday w.tuesday
    && compare_schedules w.monday w.wednesday
    && compare_schedules w.monday w.thursday
    && compare_schedules w.monday w.friday

abbrev pub holidays_all_the_same : Week → Bool
holidays_all_the_same w =
    compare_schedules w.on_holidays w.sunday && compare_schedules w.saturday w.sunday

abbrev pub all_days_the_same : Week → Bool
all_days_the_same w =
    (weekdays_all_the_same w && holidays_all_the_same w)
    && compare_schedules w.on_holidays w.tuesday

-- The lines for the days of the week and for holidays, by what is the same.
unfoldable pub lines_for : (all_days weekdays holidays' : Bool) → Week → List Line
lines_for all_days weekdays holidays' w =
    let first_lines : List Line =
      if all_days
      then (every_day, w.sunday) ∷ []
      else if weekdays
      then (working_days, w.monday) ∷ []
      else (on_weekday 2, w.tuesday)
        ∷ (on_weekday 3, w.wednesday)
        ∷ (on_weekday 4, w.thursday)
        ∷ (on_weekday 5, w.friday)
        ∷ [] in
    first_lines
    ++ (if not all_days && holidays'
        then (weekends_and_holidays, w.sunday) ∷ []
        else if not all_days
        then (on_weekday 0, w.sunday)
          ∷ (on_weekday 6, w.saturday)
          ∷ (only_holidays, w.on_holidays)
          ∷ []
        else [])

unfoldable pub week_lines : Week → List Line
week_lines w = lines_for (all_days_the_same w) (weekdays_all_the_same w) (holidays_all_the_same w) w

unfoldable pub exception_lines : ℕ → List LobbySchedule → List Line
exception_lines current_day ss =
    map (λ s. (on_year_day s.day, s))
      (select (λ s. leb (current_day - 1) s.day) (sort_by (λ s. s.day) (select is_exception ss)))

-- SchedulesToLines: `current_day` is now.YearDay() in the time zone of the network, `none` if the
-- zone cannot be loaded. Where sort.Slice may choose, the order is that of the schedules.
unfoldable pub schedules_to_lines : Option ℕ → List LobbySchedule → Option (List Line)
schedules_to_lines current_day ss = elim (week_of (λ key. by_day key ss)) [
  | none ↦ none
  | some w ↦ elim current_day [
    | none ↦ some (week_lines w)
    | some d ↦ some (week_lines w ++ exception_lines d ss)
  ]
]
