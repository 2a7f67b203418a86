-- ===== src/Vehicles/Arrival.antt =====
-- What NextTrainETA rests on, and how far its answers lie.
use disturbancesmlx.Prelude.{
  ℕ, zero, suc, ◌+◌, ◌-◌, ◌*◌, ◌/◌, ◌<◌, ◌≤◌, ◌==◌, ◌⊎◌, Has, length, if◌then◌else◌, ◌≡◌, refl, inl,
  inr, Bool, ◌&&◌, Option, none, some, List, [], ◌∷◌, arith, negsuc, ◌≤ℤ◌, leb_ℤ, take, Bool-cases,
  Option-cases, subst, not, ℤ, pos, ◌*ℤ◌, sym, ap, ◌∙◌, false, ltb_ℤ, true, ◌-ℤ◌,
}
use disturbancesmlx.Clock.{Time, Duration, second}
use disturbancesmlx.Vehicles.Eta.{minus}
use disturbancesmlx.Vehicles.NextTrain.{
  down_from, up_from, Sighting, sighting, closer, farther, look, find_train, arrives, too_far,
  EtaResult, over_by_fifth, capped_seconds, answer, failed, next_train_eta, invalid_direction,
  no_train, condition_failed, time_since,
}
use disturbancesmlx.Vehicles.Passengers.{
  last_of, VehicleHandler, seen, station_at, LineStations, choose_line, index_of, time_distance,
}
use disturbancesmlx.Reports.Cache.{total}

-- The station at the end of the line that a train goes to.
abbrev pub terminus : List ℕ → Bool → ℕ
terminus stations train_up = station_at (if train_up then length stations - 1 else 0) stations

terminus-not :
    (stations : List ℕ) (up : Bool)
    → station_at (if up then 0 else length stations - 1) stations ≡ terminus stations (not up)
terminus-not stations true = refl
terminus-not stations false = refl

down_from-bound : (user j : ℕ) → Has j (down_from user) → j ≤ user
unfolding down_from
down_from-bound zero j (inl e) = omega arith
down_from-bound zero j (inr m) = absurd m
down_from-bound (suc n) j (inl e) = omega arith
down_from-bound (suc n) j (inr m) = let least = down_from-bound n j m in omega arith

up_from-bound : (i n j : ℕ) → Has j (up_from i n) → j < i + n
unfolding up_from
up_from-bound i zero j m = absurd m
up_from-bound i (suc n) j (inl e) = omega arith
up_from-bound i (suc n) j (inr m) = let most = up_from-bound (suc i) n j m in omega arith

index_of-bound : (stop : ℕ) (xs : List ℕ) → Has stop xs → index_of stop xs < length xs
unfolding index_of
index_of-bound stop [] m = absurd m
index_of-bound stop (x ∷ xs) m = elim (Bool-cases (x == stop)) [
  | inl e ↦ rw (e, index_of) (omega arith)
  | inr e ↦ elim m [
    | inl same ↦ ground arith
    | inr later ↦ let rest = index_of-bound stop xs later in rw (e, index_of) (omega arith)
  ]
]

module _ (duration : ℕ → ℕ → ℕ) (stations : List ℕ) (h : VehicleHandler) (now : Time) (user : ℕ)
    (moving_up : Bool) where
  -- A train that a passenger was on at a station of the line, to the end of the line that it goes
  -- to, at most half a minute late.
  abbrev pub Seen : Sighting → Type 0
  Seen s =
      (i : ℕ) × (i < length stations)
      × (t : Time) × (seen (station_at i stations) (terminus stations s.train_up) h.presence
          ≡ some t)
      × (s ≡ sighting duration stations h now user moving_up i s.train_up t)
      × (negsuc 29 ≤ℤ s.min_distance)

  abbrev SeenIfAny : Option Sighting → Type 0
  SeenIfAny none = Unit
  SeenIfAny (some s) = Seen s

  look-SeenIfAny :
      (train_up : Bool) (is : List ℕ) (best : Option Sighting)
      → ((j : ℕ) → Has j is → j < length stations)
      → SeenIfAny best
      → SeenIfAny (
          look duration stations h now user moving_up (terminus stations train_up) train_up is best)
  unfolding look
  look-SeenIfAny train_up [] best on g = g
  look-SeenIfAny train_up (i ∷ is) best on g =
      let later : (j : ℕ) → Has j is → j < length stations = λ j m. on j (inr m) in
      elim (Option-cases (seen (station_at i stations) (terminus stations train_up) h.presence)) [
        | inl e ↦ rw (e, look) (look-SeenIfAny train_up is best later g)
        | inr (t, e) ↦
            let s = sighting duration stations h now user moving_up i train_up t in
            elim (Bool-cases (closer s.min_distance best && leb_ℤ (negsuc 29) s.min_distance)) [
              | inl take ↦
                  rw (e, look, take)
                    (look-SeenIfAny train_up is (some s) later
                      (i, on i (inl refl), t, e, refl, ground arith))
              | inr leave ↦ elim (Bool-cases (farther s.min_distance best)) [
                | inl far ↦ rw (e, look, leave, far) g
                | inr near ↦ rw (e, look, leave, near) (look-SeenIfAny train_up is best later g)
              ]
            ]
      ]

  or_else :
      (a b : Option Sighting)
      → SeenIfAny a
      → SeenIfAny b
      → SeenIfAny (elim a [ some s ↦ some s | none ↦ b ])
  or_else none b g k = k
  or_else (some s) b g k = g

  -- The loops come to indices of the line only.
  near-on :
      (up : Bool)
      → user < length stations
      → (j : ℕ) → Has j (if up then down_from user else up_from user (length stations - user))
      → j < length stations
  near-on true on j m = let most = down_from-bound user j m in omega arith
  near-on false on j m = let most = up_from-bound user (length stations - user) j m in omega arith

  far-on :
      (up : Bool)
      → user < length stations
      → (j : ℕ)
      → Has j (if up then up_from 0 (length stations) else down_from (length stations - 1))
      → j < length stations
  far-on true on j m = let most = up_from-bound 0 (length stations) j m in omega arith
  far-on false on j m = let most = down_from-bound (length stations - 1) j m in omega arith

  find_train-SeenIfAny :
      user < length stations → SeenIfAny (find_train duration stations h now user moving_up)
  unfolding find_train
  find_train-SeenIfAny on =
      or_else _ _ (look-SeenIfAny moving_up _ none (near-on moving_up on) tt) (
        rw (terminus-not stations moving_up)
          (look-SeenIfAny (not moving_up) _ none (far-on moving_up on) tt))

  pub find_train-Seen :
      (s : Sighting)
      → user < length stations
      → find_train duration stations h now user moving_up ≡ some s
      → Seen s
  find_train-Seen s on q = subst SeenIfAny q (find_train-SeenIfAny on)

  pub Seen-total :
      (s : Sighting)
      → Seen s
      → negsuc 29
        ≤ℤ pos (time_distance duration stations user s.at_index moving_up s.train_up)
          -ℤ s.at_seconds
  Seen-total s (i, on, t, e, q, least) =
      subst
        (λ (z : Sighting).
          negsuc 29
          ≤ℤ pos (time_distance duration stations user z.at_index moving_up s.train_up)
            -ℤ z.at_seconds)
        (sym q) (subst (λ (z : Sighting). negsuc 29 ≤ℤ z.min_distance) q least)

-- The least and the most that the answer can be, for the frequency of the trains.
abbrev pub Plausible : Duration → Duration → Type 0
Plausible frequency d =
    (negsuc 29 *ℤ pos second ≤ℤ d) × (pos 1 ≤ℤ frequency → pos 10 *ℤ d ≤ℤ pos 12 *ℤ frequency)

capped_seconds_least :
    (frequency : Duration) (since_here : Option Duration) (total : ℤ)
    → negsuc 29 ≤ℤ total
    → negsuc 29 ≤ℤ capped_seconds frequency since_here total
unfolding capped_seconds
capped_seconds_least frequency none total h = h
capped_seconds_least frequency (some passed) total h = ground arith

arrival_of : EtaResult → Duration
arrival_of (failed e) = pos 0
arrival_of (arrives d) = d

bounds :
    (frequency total : ℤ)
    → negsuc 29 ≤ℤ total
    → (ltb_ℤ (pos 0) frequency && over_by_fifth total frequency) ≡ false
    → Plausible frequency (total *ℤ pos second)
unfolding ◌*ℤ◌
bounds (pos f) (pos n) h near = ground arith
bounds (pos f) (negsuc n) h near = ground arith
bounds (negsuc f) (pos n) h near = ground arith
bounds (negsuc f) (negsuc n) h near = ground arith

answer-Plausible :
    (frequency : Duration) (total : ℤ) (d : Duration)
    → negsuc 29 ≤ℤ total
    → answer frequency total ≡ arrives d
    → Plausible frequency d
unfolding answer arrival_of
answer-Plausible frequency total d h q =
    elim (Bool-cases (ltb_ℤ (pos 0) frequency && over_by_fifth total frequency)) [
      | inl far ↦ let bad : failed too_far ≡ arrives d = sym (rw (far, answer) refl) ∙ q in cc
      | inr near ↦
          let kept : answer frequency total ≡ arrives (total *ℤ pos second) =
            rw (near, answer) refl in
          subst (Plausible frequency) (ap arrival_of (sym kept ∙ q)) (bounds frequency total h near)
    ]

answer-seconds :
    (frequency : Duration) (total : ℤ) (d : Duration)
    → answer frequency total ≡ arrives d
    → d ≡ total *ℤ pos second
unfolding answer arrival_of
answer-seconds frequency total d q =
    elim (Bool-cases (ltb_ℤ (pos 0) frequency && over_by_fifth total frequency)) [
      | inl far ↦ let bad : failed too_far ≡ arrives d = sym (rw (far, answer) refl) ∙ q in cc
      | inr near ↦
          let kept : answer frequency total ≡ arrives (total *ℤ pos second) =
            rw (near, answer) refl in
          ap arrival_of (sym q ∙ kept)
    ]

-- What the answer is for a train that needs `total` more seconds to the stop. If a train to the
-- direction was at the stop itself, and what is left of the frequency since then is positive and the
-- seconds are more than a fifth above it, then that rest in whole seconds.
abbrev pub ArrivesIn : Duration → Option Duration → ℤ → Duration → Type 0
ArrivesIn frequency none total d = d ≡ total *ℤ pos second
ArrivesIn frequency (some passed) total d =
    (((minus frequency passed ≤ℤ pos 0)
        ⊎ (pos (10 * second) *ℤ total ≤ℤ pos 12 *ℤ minus frequency passed))
      × (d ≡ total *ℤ pos second))
    ⊎ ((rest : ℕ) × (minus frequency passed ≡ pos rest)
        × (1 ≤ rest)
        × (ltb_ℤ (pos 12 *ℤ pos rest) (pos (10 * second) *ℤ total) ≡ true)
        × (d ≡ pos (rest / second) *ℤ pos second))

capped-ArrivesIn :
    (frequency : Duration) (since_here : Option Duration) (total : ℤ) (d : Duration)
    → d ≡ capped_seconds frequency since_here total *ℤ pos second
    → ArrivesIn frequency since_here total d
unfolding capped_seconds
capped-ArrivesIn frequency none total d e = e
capped-ArrivesIn frequency (some passed) total d e = by_rest (minus frequency passed) refl
  where
    by_rest :
        (remaining : ℤ)
        → minus frequency passed ≡ remaining
        → ArrivesIn frequency (some passed) total d
    by_rest (negsuc n) q =
        let near : (ltb_ℤ (pos 0) (negsuc n) && over_by_fifth total (negsuc n)) ≡ false =
          ground arith in
        inl (inl (rw q (ground arith)), rw (q, near, capped_seconds) at e)
    by_rest (pos rest) q =
        elim (Bool-cases (ltb_ℤ (pos 0) (pos rest) && over_by_fifth total (pos rest))) [
          | inl far ↦ inr (rest, q, ground arith, ground arith, rw (q, far, capped_seconds) at e)
          | inr near ↦ inl (rw q (rest_enough rest near), rw (q, near, capped_seconds) at e)
        ]
      where
        rest_enough :
            (r : ℕ)
            → (ltb_ℤ (pos 0) (pos r) && over_by_fifth total (pos r)) ≡ false
            → (pos r ≤ℤ pos 0) ⊎ (pos (10 * second) *ℤ total ≤ℤ pos 12 *ℤ pos r)
        rest_enough r near = ground arith

-- The sighting that an arrival is computed from, and the frequency that bounds it.
abbrev pub Foreseen :
    (duration : ℕ → ℕ → ℕ) (lines : List LineStations) (frequency : ℕ → Option Duration)
    → Time
    → Time
    → ℕ
    → ℕ
    → VehicleHandler
    → Duration
    → Type 0
Foreseen duration lines frequency now now' stop direction h d =
    (l : LineStations) × (moving_up : Bool) × (s : Sighting) × (f : Duration) × (choose_line
        direction none lines
      ≡ some (l, moving_up))
    × (frequency l.line ≡ some f)
    × Seen duration (l.first ∷ l.others) h now (index_of stop (l.first ∷ l.others)) moving_up s
    × ArrivesIn f (time_since now' (seen stop direction h.presence))
        (pos (
            time_distance duration (l.first ∷ l.others) (index_of stop (l.first ∷ l.others))
              s.at_index moving_up s.train_up)
          -ℤ s.at_seconds)
        d
    × Plausible f d

-- The line that is chosen is one of the station's.
choose_line-Has :
    (direction : ℕ) (lines : List LineStations) (chosen : Option (LineStations × Bool))
    (l : LineStations) (up : Bool)
    → choose_line direction chosen lines ≡ some (l, up)
    → (chosen ≡ some (l, up)) ⊎ Has l lines
unfolding choose_line
choose_line-Has direction [] chosen l up q = inl q
choose_line-Has direction (x ∷ ls) chosen l up q = elim (choose_line-Has direction ls _ l up q) [
  | inr m ↦ inr (inr m)
  | inl e ↦ elim (Bool-cases (x.first == direction)) [
    | inl f ↦ inr (inl (ap (line_or x) (rw f at e)))
    | inr f ↦ elim (Bool-cases (last_of x.first x.others == direction)) [
      | inl g ↦ inr (inl (ap (line_or x) (rw (f, g) at e)))
      | inr g ↦ inl (rw (f, g) at e)
    ]
  ]
]
  where
    line_or : LineStations → Option (LineStations × Bool) → LineStations
    line_or x none = x
    line_or x (some y) = y.0

-- If the stop is on each of its lines, an arrival that NextTrainETA returns comes from a train that a
-- passenger was seen on, at a station of the chosen line and to one of its ends, at most half a minute
-- late. It is the time that the train needs from there to the stop, less the seconds since it was
-- seen; or, where a passenger was on a train to the direction at the stop itself, what is left of the
-- frequency since then, if that is positive and the first is more than a fifth above it. It is no more than thirty seconds in the past and, where
-- the frequency of the trains is known, no more than a fifth above it.
pub next_train_eta_lem :
    (duration : ℕ → ℕ → ℕ) (fails : Bool) (lines : List LineStations)
    (frequency : ℕ → Option Duration) (now now' : Time) (stop direction : ℕ) (h : VehicleHandler)
    (d : Duration)
    → ((l : LineStations) → Has l lines → Has stop (l.first ∷ l.others))
    → next_train_eta duration fails (some lines) frequency now now' stop direction h ≡ arrives d
    → Foreseen duration lines frequency now now' stop direction h d
unfolding next_train_eta
next_train_eta_lem duration true lines frequency now now' stop direction h d own q = cc
next_train_eta_lem duration false lines frequency now now' stop direction h d own q =
    elim (Option-cases (choose_line direction none lines)) [
      | inl c ↦
          let bad : failed invalid_direction ≡ arrives d = sym (rw (c, next_train_eta) refl) ∙ q in
          cc
      | inr ((l, moving_up), c) ↦
          elim (Option-cases (
            find_train duration (l.first ∷ l.others) h now (index_of stop (l.first ∷ l.others))
              moving_up)) [
                | inl e ↦
                    let bad : failed no_train ≡ arrives d =
                      sym (rw (c, next_train_eta, e) refl) ∙ q in
                    cc
                | inr (s, e) ↦ elim (Option-cases (frequency l.line)) [
                  | inl k ↦
                      let bad : failed condition_failed ≡ arrives d =
                        sym (rw (c, next_train_eta, e, k) refl) ∙ q in
                      cc
                  | inr (f, k) ↦
                      let total =
                        pos (
                          time_distance duration (l.first ∷ l.others)
                            (index_of stop (l.first ∷ l.others)) s.at_index moving_up s.train_up)
                        -ℤ s.at_seconds in
                      let last : answer f (
                            capped_seconds f (time_since now' (seen stop direction h.presence))
                              total)
                          ≡ arrives d =
                        sym (rw (c, next_train_eta, e, k) refl) ∙ q in
                      let on_line : Has l lines =
                        elim (choose_line-Has direction lines none l moving_up c) [
                          | inl bad ↦ cc
                          | inr m ↦ m
                        ] in
                      let sight =
                        find_train-Seen duration (l.first ∷ l.others) h now
                          (index_of stop (l.first ∷ l.others)) moving_up s
                          (index_of-bound stop (l.first ∷ l.others) (own l on_line)) e in
                      (
                        l,
                        moving_up,
                        s,
                        f,
                        c,
                        k,
                        sight,
                        capped-ArrivesIn f _ total d (answer-seconds f _ d last),
                        answer-Plausible f _ d
                            (capped_seconds_least f _ total (
                              Seen-total duration (l.first ∷ l.others) h now
                                (index_of stop (l.first ∷ l.others)) moving_up s sight))
                            last,
                      )
                ]
              ]
    ]
