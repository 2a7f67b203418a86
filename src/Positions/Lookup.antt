-- ===== src/Positions/Lookup.antt =====
-- A registered prediction is found under its order, and nothing else changes.
use disturbancesmlx.Prelude.{
  ℕ, zero, suc, ◌≡◌, refl, inl, inr, Bool, Option, List, [], ◌∷◌, ◌==◌, Bool-cases, Option-cases,
  ◌+◌, ◌≤◌, ◌<◌, ap, ◌∙◌, ◌⊎◌, some, pos, if◌then◌else◌, true,
}
use disturbancesmlx.Clock.{Time, Duration}
use disturbancesmlx.Positions.Handler.{
  OrderKey, PlatformKey, same_order, is_none_left, Platforms, EtaHandler, collect, vehicle_etas,
  register_time, register_vehicle_eta, with_eta,
}
use disturbancesmlx.Positions.Store.{Store, IsStore, MovingAverage}
use disturbancesmlx.Vehicles.Eta.{VehicleEta, live_eta}

List-cases :
    (l : List VehicleEta) → (l ≡ []) ⊎ ((x : VehicleEta) × (xs : List VehicleEta) × (l ≡ x ∷ xs))
List-cases [] = inl refl
List-cases (x ∷ xs) = inr (x, xs, refl)

module _ (orders : Store OrderKey VehicleEta) (places : Store PlatformKey VehicleEta)
    (m : MovingAverage) (laws : IsStore same_order orders) where
  collect_ext :
      (f g : ℕ → Option VehicleEta) (i n : ℕ)
      → ((k : ℕ) → f k ≡ g k)
      → collect orders places m f i n ≡ collect orders places m g i n
  unfolding collect
  collect_ext f g i zero h = refl
  collect_ext f g i (suc n) h =
      ap (λ o. with_eta orders places m o (collect orders places m f (suc i) n)) (h i)
      ∙ ap (with_eta orders places m (g i)) (collect_ext f g (suc i) n h)

  register_time-etas :
      (ready : Bool) (p : Platforms) (now : Time) (e : VehicleEta) (h : EtaHandler orders places m)
      → (register_time orders places m ready p now e h).etas ≡ h.etas
  unfolding register_time
  register_time-etas ready p now e h = elim (Bool-cases ready) [
    | inr q ↦ rw q refl
    | inl q ↦ elim (Option-cases (p.connections_from e.platform)) [
      | inl n ↦ rw (q, n) refl
      | inr ([], n) ↦ rw (q, n) refl
      | inr (c ∷ cs, n) ↦
          elim (List-cases (vehicle_etas orders places m now c.to_station e.direction 1 h)) [
            | inl v ↦ rw (q, n, v) refl
            | inr (x, xs, v) ↦ rw (q, n, v) refl
          ]
    ]
  ]

  register-etas :
      (ready : Bool) (p : Platforms) (now : Time) (e : VehicleEta) (h : EtaHandler orders places m)
      → (register_vehicle_eta orders places m ready p now e h).etas
        ≡ orders.put now (e.station, e.direction, e.arrival_order) e e.valid_for h.etas
  unfolding register_vehicle_eta
  register-etas ready p now e h = elim (Bool-cases (e.arrival_order == 1)) [
    | inr q ↦ rw q refl
    | inl q ↦ elim (Bool-cases (is_none_left (live_eta now e))) [
      | inr n ↦ rw (q, n) refl
      | inl n ↦ rw (q, n) (register_time-etas ready p now e _)
    ]
  ]

  -- After RegisterVehicleETA, VehicleETAs gives the registered prediction under its station, direction and
  -- order until it expires, in the order of the orders, and under every other key what it gave before,
  -- an earlier prediction of the same vehicle under another order included.
  pub vehicle_etas-register_vehicle_eta :
      (ready : Bool) (p : Platforms) (now now' : Time) (e : VehicleEta)
      (h : EtaHandler orders places m) (stop way n ttl : ℕ)
      → e.valid_for ≡ pos ttl
      → now ≤ now'
      → now' < now + ttl
      → vehicle_etas orders places m now' stop way n
          (register_vehicle_eta orders places m ready p now e h)
        ≡ collect orders places m
            (λ i.
              if same_order (stop, way, i) (e.station, e.direction, e.arrival_order)
              then some e
              else orders.get now' (stop, way, i) h.etas)
            1
            n
  unfolding vehicle_etas
  vehicle_etas-register_vehicle_eta ready p now now' e h stop way n ttl v le lt =
      collect_ext _ _ 1 n
        (λ i. ap (orders.get now' (stop, way, i)) (register-etas ready p now e h) ∙ at_key i)
    where
      same_key :
          (i : ℕ)
          → same_order (stop, way, i) (e.station, e.direction, e.arrival_order) ≡ true
          → (d : Duration) → d ≡ pos ttl
          → orders.get now'
              (stop, way, i)
              (orders.put now (e.station, e.direction, e.arrival_order) e d h.etas)
            ≡ some e
      same_key i q d hd = rw hd (laws.get-put_same now now' _ _ e ttl h.etas q le lt)

      at_key :
          (i : ℕ)
          → orders.get now'
              (stop, way, i)
              (orders.put now (e.station, e.direction, e.arrival_order) e e.valid_for h.etas)
            ≡ (if same_order (stop, way, i) (e.station, e.direction, e.arrival_order)
                then some e
                else orders.get now' (stop, way, i) h.etas)
      at_key i =
          elim (Bool-cases (same_order (stop, way, i) (e.station, e.direction, e.arrival_order))) [
            | inl q ↦ rw q (same_key i q e.valid_for v)
            | inr q ↦ rw q (laws.get-put_other now now' _ _ e e.valid_for h.etas q)
          ]
