-- ===== src/Scraper/Etas.antt =====
-- scraper/mlxscraper/eta.go: processETAdata, from the entries of a response to predictions.
use disturbancesmlx.Prelude.{
  ℕ, ◌+◌, ◌-◌, ◌*◌, String, Bool, true, false, not, ◌&&◌, Option, none, some, List, [], ◌∷◌, ◌++◌,
  ℤ, pos, negsuc, pos_part, neg_part, ◌+ℤ◌, ◌*ℤ◌, ltb_ℤ, ◌==◌, if◌then◌else◌,
}
use disturbancesmlx.Clock.{Time, Duration, zero_time, second, sub, wrap_int64}
use disturbancesmlx.Texts.{Text, text_eq, load}
use disturbancesmlx.Vehicles.Eta.{relative_exact, VehicleEta, set_eta}

-- directionETAs, without what the program does not read. The field UT is taken to be no negative
-- number.
pub record DirectionEtas : Type 0 where
  pub stop_id : Text
  pub cais : String
  pub hora : Text
  pub comboio : Text
  pub tempo_chegada1 : ℤ
  pub comboio2 : Text
  pub tempo_chegada2 : ℤ
  pub comboio3 : Text
  pub tempo_chegada3 : ℤ
  pub destino : Text
  pub ut : ℕ

-- tempoChegadaType.UnmarshalJSON: a text counts as -1, and `number` is what json.Unmarshal makes of
-- anything else; `none` is an error.
unfoldable pub unmarshal_tempo : (number : Text → Option ℤ) → Text → Option ℤ
unmarshal_tempo number [] = number []
unmarshal_tempo number (c ∷ cs) = if c == b'"' then some (negsuc 0) else number (c ∷ cs)

-- ETAScraper: the identifier of the network, which may be nil, the stations under their
-- identifiers, the stations that destinations stand for, and how long predictions hold.
pub record EtaScraper : Type 0 where
  pub network : Option Text
  pub stations_by_id : List (Text × ℕ)
  pub destino_to_station_id : List (Text × Text)
  pub eta_validity : Duration

-- "pt-ml"
abbrev pub pt_ml : Text
pt_ml = b'p' ∷ b't' ∷ b'-' ∷ b'm' ∷ b'l' ∷ []

-- stopIDtoStationID, where `lower` is strings.ToLower
unfoldable pub stop_id_to_station_id : (lower : Text → Text) → Option Text → Text → Text
stop_id_to_station_id lower none stop_id = []
stop_id_to_station_id lower (some network) stop_id =
    if text_eq network pt_ml then network ++ (b'-' ∷ lower stop_id) else []

-- getDirection; `none` is nil.
unfoldable pub get_direction : EtaScraper → DirectionEtas → Option ℕ
get_direction sc e = elim (load e.destino sc.destino_to_station_id) [
  | none ↦ none
  | some d ↦ load d sc.stations_by_id
]

-- strings.TrimLeft(s, "0")
unfoldable pub trim_zeros : Text → Text
trim_zeros [] = []
trim_zeros (c ∷ cs) = if c == b'0' then trim_zeros cs else c ∷ cs

-- t.Add(d), as in Time.Add, for times that stay after the zero time.
abbrev pub add_duration : Time → Duration → Time
add_duration t d = t + pos_part d - neg_part d

abbrev pub is_empty : Text → Bool
is_empty [] = true
is_empty (c ∷ cs) = false

-- time.Duration(tempo) * time.Second
abbrev pub tempo_duration : ℤ → Duration
tempo_duration tempo = wrap_int64 (tempo *ℤ pos second)

-- commonETA
abbrev pub common_eta : EtaScraper → Time → Time → ℕ → ℕ → DirectionEtas → VehicleEta
common_eta sc now creation station direction e = record {
  station = station;
  direction = direction;
  arrival_order = 0;
  transport_units = 0;
  vehicle_service_id = [];
  platform = e.cais;
  computed = creation;
  valid_for = wrap_int64 (sub now creation +ℤ sc.eta_validity);
  eta_type = relative_exact;
  absolute_eta = zero_time;
  eta = pos 0;
  eta_lower_bound = pos 0;
  eta_upper_bound = pos 0;
  precision = pos second;
}

-- The prediction for one of the trains, if there is one.
unfoldable pub train_eta : VehicleEta → ℕ → ℕ → Text → ℤ → List VehicleEta
train_eta common order units comboio tempo =
    if not (is_empty comboio) && not (ltb_ℤ tempo (pos 0))
    then set_eta (tempo_duration tempo) (record common {
      arrival_order = order;
      vehicle_service_id = trim_zeros comboio;
      transport_units = units;
    })
      ∷ []
    else []

-- What the callback gets for an entry with a station and a direction.
unfoldable pub entry_etas : VehicleEta → DirectionEtas → List VehicleEta
entry_etas common e =
    train_eta common 1 (e.ut * 3) e.comboio e.tempo_chegada1
    ++ (train_eta common 2 0 e.comboio2 e.tempo_chegada2
        ++ train_eta common 3 0 e.comboio3 e.tempo_chegada3)

-- What processETAdata does with an entry: it is ignored, its time is an error, or its predictions
-- are handed to the callback.
pub data Entry : Type 0 where
  ignored bad_time : Entry
  published : List VehicleEta → Entry

module _ (lower : Text → Text) (parse_time : Text → Option Time) where
  -- `parse_time` is time.ParseInLocation, and `now` the time at which the entry comes up.
  unfoldable pub process_entry : EtaScraper → Duration → Time → DirectionEtas → Entry
  process_entry sc time_offset now e =
      elim (load (stop_id_to_station_id lower sc.network e.stop_id) sc.stations_by_id) [
        | none ↦ ignored
        | some station ↦ elim (parse_time e.hora) [
          | none ↦ bad_time
          | some t ↦ elim (get_direction sc e) [
            | none ↦ ignored
            | some direction ↦
                published (
                  entry_etas (common_eta sc now (add_duration t time_offset) station direction e) e)
          ]
        ]
      ]

  -- processETAdata: what the callback gets, and whether there is an error.
  unfoldable pub process_eta_data :
      EtaScraper → Duration → List (Time × DirectionEtas) → List VehicleEta × Bool
  process_eta_data sc time_offset [] = ([], false)
  process_eta_data sc time_offset ((now, e) ∷ es) =
      let (etas, failed) = process_eta_data sc time_offset es in
      elim (process_entry sc time_offset now e) [
        | ignored ↦ (etas, failed)
        | bad_time ↦ ([], true)
        | published new ↦ (new ++ etas, failed)
      ]
