-- ===== src/Scraper/Fetch.antt =====
-- scraper/mlxscraper/eta.go: fetchDestinos and fetchStations, from the decoded responses.
use disturbancesmlx.Prelude.{
  ℕ, ◌*◌, ◌≡◌, refl, ap, ◌∙◌, inl, inr, Bool, true, false, not, ◌||◌, Option, none, some, List, [],
  ◌∷◌, ℤ, pos, ltb_ℤ, ◌==◌, if◌then◌else◌, Option-cases,
}
use disturbancesmlx.Clock.{Time, Duration, before}
use disturbancesmlx.Scraper.Etas.{DirectionEtas, EtaScraper, process_eta_data}
use disturbancesmlx.Texts.{Text, text_eq, load, load-store, store}
use disturbancesmlx.Vehicles.Eta.{VehicleEta}

-- The identifier of the first station of the name; a station is its name and its identifier.
unfoldable pub station_named : Text → List (Text × Text) → Option Text
station_named name [] = none
station_named name (s ∷ ss) = if text_eq name s.0 then some s.1 else station_named name ss

-- The loop of fetchDestinos, over the identifiers and names of destinations: the map, and whether
-- there is an error.
unfoldable pub read_destinos :
    List (Text × Text) → List (Text × Text) → List (Text × Text) → List (Text × Text) × Bool
read_destinos stations [] destinos = (destinos, false)
read_destinos stations (info ∷ infos) destinos = elim (station_named info.1 stations) [
  | none ↦ (destinos, true)
  | some id ↦ read_destinos stations infos (store info.0 id destinos)
]

-- fetchDestinos: `decoded` is what the service answers, `none` if the request or the decoding fails.
unfoldable pub fetch_destinos :
    Option (List (Text × Text)) → List (Text × Text) → EtaScraper → EtaScraper × Bool
fetch_destinos none stations sc = (sc, true)
fetch_destinos (some []) stations sc = (sc, true)
fetch_destinos (some (info ∷ infos)) stations sc =
    let (destinos, failed) = read_destinos stations (info ∷ infos) sc.destino_to_station_id in
    (record sc { destino_to_station_id = destinos }, failed)

-- What a body decodes to: the entries, or else an answer and a code.
pub record Body : Type 0 where
  pub decoded : Option (List (Time × DirectionEtas))
  pub alternative : Option (Text × Text)

-- A response. `clock_drift` is what measureClockDrift gives, from the moving average of a library.
pub record EtaResponse : Type 0 where
  pub content_length : ℤ
  pub status_code : ℕ
  pub body : Option Body
  pub clock_drift : Duration

module _ (lower : Text → Text) (parse_time : Text → Option Time) where
  -- fetchStations: what the callback gets, the clock drift, and whether there is an error. The
  -- error that is returned after an alternative answer is the one of decoding it, which is nil.
  unfoldable pub fetch_stations :
      (has_callback : Bool) → Option EtaResponse → EtaScraper → (List VehicleEta × Duration) × Bool
  fetch_stations has_callback none sc = (([], pos 0), true)
  fetch_stations has_callback (some r) sc =
      if ltb_ℤ (pos (1024 * 1024)) r.content_length || not (r.status_code == 200)
      then (([], pos 0), true)
      else elim r.body [
        | none ↦ (([], pos 0), true)
        | some body' ↦ elim body'.decoded [
          | none ↦ elim body'.alternative [
            | none ↦ (([], r.clock_drift), true)
            | some answer ↦ (([], r.clock_drift), false)
          ]
          | some entries ↦
              if has_callback
              then (let (etas, failed) =
                    process_eta_data lower parse_time sc r.clock_drift entries in
                  ((etas, r.clock_drift), failed))
              else (([], r.clock_drift), false)
        ]
      ]

-- What the map has for a destination after the loop: the station of the last entry of the
-- destination, or what it had.
abbrev pub last_named : List (Text × Text) → List (Text × Text) → Text → Option Text → Option Text
last_named stations [] destino before = before
last_named stations (info ∷ infos) destino before =
    last_named stations infos destino
      (if text_eq info.0 destino then station_named info.1 stations else before)

-- Every name is the name of a station.
abbrev pub all_named : List (Text × Text) → List (Text × Text) → Bool
all_named stations [] = true
all_named stations (info ∷ infos) = elim (station_named info.1 stations) [
  | none ↦ false
  | some id ↦ all_named stations infos
]

-- The loop has an error exactly if some name is no station's. Without one, each destination stands
-- for the station of its last entry, or for what it stood for before.
pub read_destinos_lem :
    (stations infos destinos : List (Text × Text))
    → ((read_destinos stations infos destinos).1 ≡ not (all_named stations infos))
      × (all_named stations infos ≡ true
          → (destino : Text)
          → load destino (read_destinos stations infos destinos).0
            ≡ last_named stations infos destino (load destino destinos))
unfolding read_destinos
read_destinos_lem stations [] destinos = (refl, λ q destino. refl)
read_destinos_lem stations (info ∷ infos) destinos =
    elim (Option-cases (station_named info.1 stations)) [
      | inl e ↦ rw (read_destinos, e, all_named) (refl, λ q. cc)
      | inr (id, e) ↦
          let (same, known) = read_destinos_lem stations infos (store info.0 id destinos) in
          rw (read_destinos, e, all_named)
            (
              same,
              λ q destino.
                  known q destino
                  ∙ ap (last_named stations infos destino) (load-store destino info.0 id destinos),
            )
    ]
