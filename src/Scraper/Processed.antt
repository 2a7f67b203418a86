-- ===== src/Scraper/Processed.antt =====
-- Which predictions the callback gets, and from which entries.
use disturbancesmlx.Prelude.{
  ◌≡◌, ◌⊎◌, Bool, not, ◌&&◌, none, true, false, ◌||◌, Option, List, [], ◌∷◌, ◌++◌, if◌then◌else◌, ℕ,
  refl, ap, inl, inr, some, ℤ, pos, ◌+ℤ◌, ltb_ℤ, Has, ◌*◌, subst, Bool-cases, Option-cases, ◌∙◌,
}
use disturbancesmlx.Clock.{Time, Duration, sub, wrap_int64}
use disturbancesmlx.Disturbances.Model.{valid}
use disturbancesmlx.Scraper.Etas.{
  DirectionEtas, EtaScraper, bad_time, published, process_entry, ignored, stop_id_to_station_id,
  get_direction, trim_zeros, add_duration, is_empty, tempo_duration, train_eta, entry_etas,
  process_eta_data, common_eta,
}
use disturbancesmlx.Texts.{Text, load}
use disturbancesmlx.Vehicles.Eta.{VehicleEta, relative_exact, set_eta}

Has-split : (p : VehicleEta) (xs ys : List VehicleEta) → Has p (xs ++ ys) → Has p xs ⊎ Has p ys
Has-split p [] ys m = inr m
Has-split p (x ∷ xs) ys (inl e) = inl (inl e)
Has-split p (x ∷ xs) ys (inr m) = elim (Has-split p xs ys m) [ inl h ↦ inl (inr h) | inr h ↦ inr h ]

-- A prediction for a train comes from a number and a time that are not missing.
Has-train :
    (common p : VehicleEta) (order units : ℕ) (comboio : Text) (tempo : ℤ)
    → Has p (train_eta common order units comboio tempo)
    → (is_empty comboio ≡ false)
      × (ltb_ℤ tempo (pos 0) ≡ false)
      × (set_eta (tempo_duration tempo) (record common {
        arrival_order = order;
        vehicle_service_id = trim_zeros comboio;
        transport_units = units;
      })
          ≡ p)
unfolding train_eta
Has-train common p order units comboio tempo m = elim (Bool-cases (is_empty comboio)) [
  | inl e ↦ absurd (rw (train_eta, e) at m)
  | inr e ↦ elim (Bool-cases (ltb_ℤ tempo (pos 0))) [
    | inl q ↦ absurd (rw (train_eta, e, q) at m)
    | inr q ↦ elim (rw (train_eta, e, q) at m) [ inl same ↦ (e, q, same) | inr f ↦ absurd f ]
  ]
]

module _ (lower : Text → Text) (parse_time : Text → Option Time) (sc : EtaScraper)
    (time_offset : Duration) where
  -- The station of an entry, if its stop is known.
  abbrev station_of : DirectionEtas → Option ℕ
  station_of e = load (stop_id_to_station_id lower sc.network e.stop_id) sc.stations_by_id

  -- The entry is of a known stop, and its time cannot be read.
  abbrev pub is_bad : DirectionEtas → Bool
  is_bad e = valid (station_of e) && not (valid (parse_time e.hora))

  -- The predictions for the trains of an entry whose stop, time and direction are known.
  abbrev pub etas_of : Time × DirectionEtas → List VehicleEta
  etas_of (now, e) = elim (station_of e) [
    | none ↦ []
    | some station ↦ elim (parse_time e.hora) [
      | none ↦ []
      | some t ↦ elim (get_direction sc e) [
        | none ↦ []
        | some direction ↦
            entry_etas (common_eta sc now (add_duration t time_offset) station direction e) e
      ]
    ]
  ]

  -- The entries up to the first one with a bad time.
  abbrev pub until_bad : List (Time × DirectionEtas) → List (Time × DirectionEtas)
  until_bad [] = []
  until_bad (x ∷ xs) = if is_bad x.1 then [] else x ∷ until_bad xs

  abbrev pub all_etas : List (Time × DirectionEtas) → List VehicleEta
  all_etas [] = []
  all_etas (x ∷ xs) = etas_of x ++ all_etas xs

  abbrev pub some_bad : List (Time × DirectionEtas) → Bool
  some_bad [] = false
  some_bad (x ∷ xs) = is_bad x.1 || some_bad xs

  process_entry_lem :
      (x : Time × DirectionEtas)
      → ((is_bad x.1 ≡ true) × (process_entry lower parse_time sc time_offset x.0 x.1 ≡ bad_time))
        ⊎ ((is_bad x.1 ≡ false)
            × (process_entry lower parse_time sc time_offset x.0 x.1 ≡ ignored)
            × (etas_of x ≡ []))
        ⊎ ((is_bad x.1 ≡ false)
            × (process_entry lower parse_time sc time_offset x.0 x.1 ≡ published (etas_of x)))
  unfolding process_entry
  process_entry_lem (now, e) = elim (Option-cases (station_of e)) [
    | inl a ↦ inr (inl (rw a refl, rw (process_entry, a) refl, rw (etas_of, a) refl))
    | inr (station, a) ↦ elim (Option-cases (parse_time e.hora)) [
      | inl t ↦ inl (rw (a, t) refl, rw (process_entry, a, t) refl)
      | inr (t, c) ↦ elim (Option-cases (get_direction sc e)) [
        | inl b ↦
            inr (inl (rw (a, c) refl, rw (process_entry, a, c, b) refl, rw (etas_of, a, c, b) refl))
        | inr (direction, b) ↦ inr (inr (rw (a, c) refl, rw (process_entry, etas_of, a, c, b) refl))
      ]
    ]
  ]

  -- There is an error exactly if some entry of a known stop has a time that cannot be read, and the
  -- callback gets the predictions of all entries before the first such one, in order: those for the
  -- trains of the entries whose stop, time and direction are known.
  pub process_eta_data_lem :
      (es : List (Time × DirectionEtas))
      → ((process_eta_data lower parse_time sc time_offset es).1 ≡ some_bad es)
        × ((process_eta_data lower parse_time sc time_offset es).0 ≡ all_etas (until_bad es))
  unfolding process_eta_data
  process_eta_data_lem [] = (refl, refl)
  process_eta_data_lem (x ∷ es) =
      let (same, got) = process_eta_data_lem es in
      elim (process_entry_lem x) [
        | inl (b, e) ↦ rw (process_eta_data, e, b) (refl, refl)
        | inr (inl (b, e, n)) ↦ rw (process_eta_data, e, b) (same, got ∙ rw n refl)
        | inr (inr (b, e)) ↦ rw (process_eta_data, e, b) (same, ap (λ l. etas_of x ++ l) got)
      ]

  -- A train of an entry, with its place in the order.
  abbrev pub IsTrain : DirectionEtas → ℕ → Text → ℤ → Type 0
  IsTrain e order comboio tempo =
      ((order ≡ 1) × (comboio ≡ e.comboio) × (tempo ≡ e.tempo_chegada1))
      ⊎ ((order ≡ 2) × (comboio ≡ e.comboio2) × (tempo ≡ e.tempo_chegada2))
      ⊎ ((order ≡ 3) × (comboio ≡ e.comboio3) × (tempo ≡ e.tempo_chegada3))

  -- The prediction is of a train of the entry: of its stop and direction, computed at its time with
  -- the offset, in as many seconds as it says, which are not negative, under the number of the train
  -- with no zeros before it.
  pub record IsPredicted (x : Time × DirectionEtas) (p : VehicleEta) : Type 0 where
    pub at_station :
        load (stop_id_to_station_id lower sc.network x.1.stop_id) sc.stations_by_id ≡ some p.station
    pub in_direction : get_direction sc x.1 ≡ some p.direction
    pub at_time :
        (t : Time) × (parse_time x.1.hora ≡ some t) × (p.computed ≡ add_duration t time_offset)
    pub comboio_used : Text
    pub tempo_used : ℤ
    pub of_train : IsTrain x.1 p.arrival_order comboio_used tempo_used
    pub has_number : is_empty comboio_used ≡ false
    pub in_time : ltb_ℤ tempo_used (pos 0) ≡ false
    pub predicted : p.eta ≡ tempo_duration tempo_used
    pub exact : p.eta_type ≡ relative_exact
    pub numbered : p.vehicle_service_id ≡ trim_zeros comboio_used
    pub held : p.valid_for ≡ wrap_int64 (sub x.0 p.computed +ℤ sc.eta_validity)

  -- What the station, the time and the direction of the entry are.
  IsFrom : Time × DirectionEtas → VehicleEta → Type 0
  IsFrom x common =
      (load (stop_id_to_station_id lower sc.network x.1.stop_id) sc.stations_by_id
        ≡ some common.station)
      × (get_direction sc x.1 ≡ some common.direction)
      × ((t : Time) × (parse_time x.1.hora ≡ some t)
          × (common.computed ≡ add_duration t time_offset))
      × (common.valid_for ≡ wrap_int64 (sub x.0 common.computed +ℤ sc.eta_validity))

  train_eta-IsPredicted :
      (x : Time × DirectionEtas) (common p : VehicleEta) (order units : ℕ) (comboio : Text)
      (tempo : ℤ)
      → IsFrom x common
      → IsTrain x.1 order comboio tempo
      → Has p (train_eta common order units comboio tempo)
      → IsPredicted x p
  unfolding IsFrom set_eta
  train_eta-IsPredicted x common p order units comboio tempo (a, b, c, v) train m =
      let (named, later, same) = Has-train common p order units comboio tempo m in
      subst (IsPredicted x) same (record {
        at_station = a;
        in_direction = b;
        at_time = c;
        comboio_used = comboio;
        tempo_used = tempo;
        of_train = train;
        has_number = named;
        in_time = later;
        predicted = refl;
        exact = refl;
        numbered = refl;
        held = v;
      })

  from_entry :
      (x : Time × DirectionEtas) (p common : VehicleEta)
      → IsFrom x common
      → Has p (entry_etas common x.1)
      → IsPredicted x p
  unfolding entry_etas
  from_entry x p common from m =
      elim (Has-split p (train_eta common 1 (x.1.ut * 3) x.1.comboio x.1.tempo_chegada1) _ m) [
        | inl h ↦ train_eta-IsPredicted x common p 1 _ _ _ from (inl (refl, refl, refl)) h
        | inr m' ↦ elim (Has-split p (train_eta common 2 0 x.1.comboio2 x.1.tempo_chegada2) _ m') [
          | inl h ↦ train_eta-IsPredicted x common p 2 _ _ _ from (inr (inl (refl, refl, refl))) h
          | inr h ↦ train_eta-IsPredicted x common p 3 _ _ _ from (inr (inr (refl, refl, refl))) h
        ]
      ]

  Has-entry : (x : Time × DirectionEtas) (p : VehicleEta) → Has p (etas_of x) → IsPredicted x p
  unfolding IsFrom
  Has-entry x p m = elim (Option-cases (station_of x.1)) [
    | inl a ↦ absurd (rw (etas_of, a) at m)
    | inr (station, a) ↦ elim (Option-cases (parse_time x.1.hora)) [
      | inl t ↦ absurd (rw (etas_of, a, t) at m)
      | inr (t, c) ↦ elim (Option-cases (get_direction sc x.1)) [
        | inl b ↦ absurd (rw (etas_of, a, c, b) at m)
        | inr (direction, b) ↦
            from_entry x p (common_eta sc x.0 (add_duration t time_offset) station direction x.1)
              (a, b, (t, c, refl), refl) (rw (etas_of, a, c, b) at m)
      ]
    ]
  ]

  Has-all_etas :
      (p : VehicleEta) (es : List (Time × DirectionEtas))
      → Has p (all_etas (until_bad es))
      → (x : Time × DirectionEtas) × Has x es × IsPredicted x p
  Has-all_etas p [] m = absurd m
  Has-all_etas p (x ∷ es) m = elim (Bool-cases (is_bad x.1)) [
    | inl e ↦ absurd (rw e at m)
    | inr e ↦ elim (Has-split p (etas_of x) (all_etas (until_bad es)) (rw e at m)) [
      | inl h ↦ (x, inl refl, Has-entry x p h)
      | inr h ↦ let (y, n, q) = Has-all_etas p es h in (y, inr n, q)
    ]
  ]

  -- Each prediction that the callback gets is of a train of some entry, as the entry says.
  pub process_eta_data-IsPredicted :
      (es : List (Time × DirectionEtas)) (p : VehicleEta)
      → Has p (process_eta_data lower parse_time sc time_offset es).0
      → (x : Time × DirectionEtas) × Has x es × IsPredicted x p
  process_eta_data-IsPredicted es p m =
      Has-all_etas p es (subst (Has p) (process_eta_data_lem es).1 m)
