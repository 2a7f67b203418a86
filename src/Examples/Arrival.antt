-- ===== src/Examples/Arrival.antt =====
-- A line of three stations, with a train that was seen at the first one a minute ago.
use disturbancesmlx.Prelude.{
  ℕ, ◌*◌, ◌≡◌, refl, inl, inr, Has, subst, false, some, [], ◌∷◌, pos, ◌-ℤ◌, ◌*ℤ◌,
}
use disturbancesmlx.Clock.{second, sub}
use disturbancesmlx.Vehicles.Arrival.{Foreseen, next_train_eta_lem}
use disturbancesmlx.Vehicles.NextTrain.{
  arrives, down_from, up_from, look, find_train, capped_seconds, answer, next_train_eta,
}
use disturbancesmlx.Vehicles.Passengers.{
  VehicleHandler, seen, LineStations, choose_line, index_of, ride_up, ride_down, time_distance,
}

abbrev red_line : LineStations
red_line = record { line = 1; first = 11; others = 12 ∷ 13 ∷ [] }

abbrev handler : VehicleHandler
handler = record { readings = []; presence = ((11, 13), 940 * second) ∷ [] }

abbrev hundred_seconds : ℕ → ℕ → ℕ
hundred_seconds from to = 100

arrival_at_last :
    next_train_eta hundred_seconds false
      (some (red_line ∷ []))
      (λ l. some (pos (300 * second)))
      (1000 * second)
      (1000 * second)
      13
      13
      handler
    ≡ arrives (pos (140 * second))
unfolding next_train_eta choose_line find_train look seen index_of down_from up_from time_distance
    ride_up ride_down sub answer capped_seconds ◌*ℤ◌ ◌-ℤ◌
arrival_at_last = refl

own_stop : (l : LineStations) → Has l (red_line ∷ []) → Has 13 (l.first ∷ l.others)
own_stop l (inl e) =
    subst (λ (z : LineStations). Has 13 (z.first ∷ z.others)) e (inr (inr (inl refl)))
own_stop l (inr m) = absurd m

next_train_eta_lem_example :
    Foreseen hundred_seconds
      (red_line ∷ [])
      (λ l. some (pos (300 * second)))
      (1000 * second)
      (1000 * second)
      13
      13
      handler
      (pos (140 * second))
next_train_eta_lem_example =
    next_train_eta_lem hundred_seconds false (red_line ∷ []) (λ l. some (pos (300 * second)))
      (1000 * second) (1000 * second) 13 13 handler (pos (140 * second)) own_stop arrival_at_last
