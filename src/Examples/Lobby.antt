-- ===== src/Examples/Lobby.antt =====
-- The lines for a lobby that is open longer on Fridays.
use disturbancesmlx.Prelude.{
  ℕ, ◌≡◌, refl, true, false, not, ◌&&◌, none, some, List, [], ◌∷◌, select, sort_by, if◌then◌else◌,
}
use disturbancesmlx.Network.Lobby.{
  LobbySchedule, compare_schedules, DayKey, by_day, weekends_and_holidays, on_year_day, Line, Week,
  week_of, weekdays_all_the_same, lines_for, week_lines, exception_lines, schedules_to_lines,
  on_weekday,
}
use disturbancesmlx.Network.LobbyLines.{told, hours_on, is_monday, schedules_to_lines_lem}

abbrev usual : ℕ → LobbySchedule
usual d = record { holiday = false; day = d; opened = true; open_time = 6; open_duration = 18 }

abbrev long_fridays : Week
long_fridays = record {
  on_holidays = record (usual 0) { holiday = true };
  sunday = usual 0;
  monday = usual 1;
  tuesday = usual 2;
  wednesday = usual 3;
  thursday = usual 4;
  friday = record (usual 5) { open_duration = 20 };
  saturday = usual 6;
}

abbrev lobby_schedules : List LobbySchedule
lobby_schedules =
    record (usual 0) { holiday = true }
    ∷ record (usual 120) { holiday = true; opened = false }
    ∷ usual 0
    ∷ usual 1
    ∷ usual 2
    ∷ usual 3
    ∷ usual 4
    ∷ record (usual 5) { open_duration = 20 }
    ∷ usual 6
    ∷ []

schedules_to_lines_lem_example :
    (lines : List Line) × (schedules_to_lines (some 100) lobby_schedules ≡ some lines)
    × ((key : DayKey)
        → told key lines ≡ (
            if is_monday key && not (weekdays_all_the_same long_fridays)
            then none
            else hours_on key long_fridays))
unfolding week_of by_day
schedules_to_lines_lem_example = schedules_to_lines_lem (some 100) lobby_schedules long_fridays refl

no_monday :
    schedules_to_lines (some 100) lobby_schedules
    ≡ some (
        (on_weekday 2, usual 2)
        ∷ (on_weekday 3, usual 3)
        ∷ (on_weekday 4, usual 4)
        ∷ (on_weekday 5, record (usual 5) { open_duration = 20 })
        ∷ (weekends_and_holidays, usual 0)
        ∷ (on_year_day 120, record (usual 120) { holiday = true; opened = false })
        ∷ [])
unfolding schedules_to_lines week_of by_day week_lines lines_for exception_lines compare_schedules
    select sort_by
no_monday = refl
