-- ===== src/Trips/Model.antt =====
-- The trips and the uses of stations, with the rows of their tables.
use disturbancesmlx.Prelude.{ℕ, Bool, true, false, ◌&&◌, Option, List, [], ◌∷◌, ◌==◌, if◌then◌else◌}
use disturbancesmlx.Clock.{Time}

-- StationUseType; any other text of a request is `unknown_type`.
pub data StationUseType : Type 0 where
  network_entry network_exit interchange gone_through visit unknown_type : StationUseType

abbrev pub is_interchange : StationUseType → Bool
is_interchange interchange = true
is_interchange _ = false

abbrev pub is_visit : StationUseType → Bool
is_visit visit = true
is_visit _ = false

abbrev pub is_known : StationUseType → Bool
is_known unknown_type = false
is_known _ = true

-- StationUse, with its station and its lines named by their identifiers.
pub record StationUse : Type 0 where
  pub use_station : ℕ
  pub entry_time : Time
  pub leave_time : Time
  pub use_type : StationUseType
  pub manual : Bool
  pub source_line : Option ℕ
  pub target_line : Option ℕ

-- Trip, with its submitter named by the key of the pair.
pub record Trip : Type 0 where
  pub trip_id : ℕ
  pub start_time : Time
  pub end_time : Time
  pub submitter : ℕ
  pub submit_time : Time
  pub edit_time : Time
  pub edited : Bool
  pub user_confirmed : Bool
  pub station_uses : List StationUse

-- A row of the table trip.
pub record TripRow : Type 0 where
  pub row_trip : ℕ
  pub row_start : Time
  pub row_end : Time
  pub row_submitter : ℕ
  pub row_submit_time : Time
  pub row_edit_time : Option Time
  pub row_confirmed : Bool

-- A row of the table station_use: the trip and the use.
abbrev pub UseRow : Type 0
UseRow = ℕ × StationUse

pub record TripDb : Type 0 where
  pub trips : List TripRow
  pub uses : List UseRow

-- The primary key of station_use: trip, station and time of entry.
abbrev pub same_use : UseRow → UseRow → Bool
same_use a b = a.0 == b.0 && a.1.use_station == b.1.use_station && a.1.entry_time == b.1.entry_time

abbrev pub upsert_use : UseRow → List UseRow → List UseRow
upsert_use x [] = x ∷ []
upsert_use x (y ∷ ys) = if same_use y x then x ∷ ys else y ∷ upsert_use x ys
