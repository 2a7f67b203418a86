-- ===== src/Examples/Scraper.antt =====
-- An answer of the service with an unknown stop, a good entry and an entry with a bad time.
use disturbancesmlx.Prelude.{
  ◌+◌, ◌-◌, ◌*◌, ◌≤◌, ◌<◌, ◌≡◌, refl, inl, true, false, Option, none, some, List, [], ◌∷◌, map,
  arith, pos, negsuc, ◌+ℤ◌, ◌*ℤ◌, Has, if◌then◌else◌,
}
use disturbancesmlx.Clock.{Time, zero_time, second, sub}
use disturbancesmlx.Scraper.Etas.{
  DirectionEtas, EtaScraper, pt_ml, stop_id_to_station_id, get_direction, trim_zeros, train_eta,
  entry_etas, process_entry, process_eta_data,
}
use disturbancesmlx.Scraper.Expiry.{far, remaining_validity-process_eta_data}
use disturbancesmlx.Scraper.Fetch.{fetch_stations}
use disturbancesmlx.Scraper.Processed.{
  until_bad, all_etas, some_bad, process_eta_data_lem, IsPredicted,
}
use disturbancesmlx.Texts.{Text, text_eq, load}
use disturbancesmlx.Vehicles.Eta.{relative_exact, VehicleEta, remaining_validity, set_eta}
use disturbancesmlx.Scraper.Conditions.{
  FrequencyAnswer, frequency_text, fetch_conditions_for_line, fetch_conditions,
}

abbrev stop_one : Text
stop_one = b'A' ∷ []

abbrev station_one : Text
station_one = b'p' ∷ b't' ∷ b'-' ∷ b'm' ∷ b'l' ∷ b'-' ∷ b'a' ∷ []

abbrev small : Text → Text
small t = map (λ c. c + 32) t

-- The time is the number that the text has for its only sign.
abbrev read_time : Text → Option Time
read_time [] = none
read_time (c ∷ cs) = some (c * second)

abbrev eta_scraper : EtaScraper
eta_scraper = record {
  network = some pt_ml;
  stations_by_id = (station_one, 3) ∷ [];
  destino_to_station_id = (b'5' ∷ [], station_one) ∷ [];
  eta_validity = pos (20 * second);
}

abbrev good_entry : DirectionEtas
good_entry = record {
  stop_id = stop_one;
  cais = "A1";
  hora = 100 ∷ [];
  comboio = b'0' ∷ b'7' ∷ b'A' ∷ [];
  tempo_chegada1 = pos 90;
  comboio2 = [];
  tempo_chegada2 = pos 0;
  comboio3 = b'8' ∷ b'A' ∷ [];
  tempo_chegada3 = negsuc 0;
  destino = b'5' ∷ [];
  ut = 2;
}

abbrev entries : List (Time × DirectionEtas)
entries =
    (102 * second, record good_entry { stop_id = b'Z' ∷ [] })
    ∷ (102 * second, good_entry)
    ∷ (102 * second, record good_entry { hora = [] })
    ∷ (102 * second, good_entry)
    ∷ []

abbrev first_eta : VehicleEta
first_eta = record {
  station = 3;
  direction = 3;
  arrival_order = 1;
  transport_units = 6;
  vehicle_service_id = b'7' ∷ b'A' ∷ [];
  platform = "A1";
  computed = 101 * second;
  valid_for = pos (21 * second);
  eta_type = relative_exact;
  absolute_eta = zero_time;
  eta = pos (90 * second);
  eta_lower_bound = pos 0;
  eta_upper_bound = pos 0;
  precision = pos second;
}

one_published :
    process_eta_data small read_time eta_scraper (pos second) entries ≡ (first_eta ∷ [], true)
unfolding process_eta_data process_entry stop_id_to_station_id get_direction trim_zeros train_eta
    entry_etas set_eta load text_eq sub ◌+ℤ◌ ◌*ℤ◌
one_published = refl

process_eta_data_lem_example :
    ((process_eta_data small read_time eta_scraper (pos second) entries).1
      ≡ some_bad small read_time eta_scraper (pos second) entries)
    × ((process_eta_data small read_time eta_scraper (pos second) entries).0
        ≡ all_etas small read_time eta_scraper
            (pos second)
            (until_bad small read_time eta_scraper (pos second) entries))
process_eta_data_lem_example = process_eta_data_lem small read_time eta_scraper (pos second) entries

remaining_validity-process_eta_data_example :
    (x : Time × DirectionEtas) × Has x entries
    × IsPredicted small read_time eta_scraper (pos second) x first_eta
    × ((later : Time)
        → x.0 ≤ later
        → later < x.0 + far
        → first_eta.computed < x.0 + far
        → x.0 < first_eta.computed + far
        → remaining_validity later first_eta ≡ pos (x.0 + 20 * second - later))
remaining_validity-process_eta_data_example =
    remaining_validity-process_eta_data small read_time eta_scraper (pos second) entries first_eta
      (20 * second) (rw one_published (inl refl)) refl (omega arith)

-- A service that answers with a message that is not expected makes no error.
silent :
    fetch_stations small read_time true
      (some (record {
        content_length = pos 100;
        status_code = 200;
        body = some (record { decoded = none; alternative = some (b'x' ∷ [], b'9' ∷ []) });
        clock_drift = pos 0;
      }))
      eta_scraper
    ≡ (([], pos 0), false)
unfolding fetch_stations
silent = refl

-- A train each five minutes and ten seconds, of two units; then an answer that does not decode.
abbrev five_minutes : FrequencyAnswer
five_minutes = record {
  frequency = record {
    linha = b'A' ∷ [];
    intervalo = b'0' ∷ b'5' ∷ b':' ∷ b'1' ∷ b'0' ∷ b':' ∷ b'0' ∷ b'0' ∷ [];
    cars_of_unit = pos 2;
  };
  is_decoded = true;
  is_alternative = false;
  has_new_id = true;
  answer_time = 500;
}

frequencies :
    fetch_conditions
      (λ text.
        if text_eq text (b'0' ∷ b'5' ∷ b'm' ∷ b'1' ∷ b'0' ∷ b's' ∷ [])
        then some (pos (310 * second))
        else none)
      ((1, some five_minutes)
        ∷ (2, some (record five_minutes { is_decoded = false }))
        ∷ (3, none)
        ∷ (4, some five_minutes)
        ∷ [])
    ≡ (
      record {
        condition_time = 500;
        condition_line = 1;
        train_cars = pos 6;
        train_frequency = pos (310 * second);
      }
          ∷ [],
      true,
    )
unfolding fetch_conditions fetch_conditions_for_line frequency_text text_eq ◌*ℤ◌
frequencies = refl
