-- ===== src/Scraper/Expiry.antt =====
-- How long a prediction of the scraper holds, from its entry to its use (types/vehicleeta.go).
use disturbancesmlx.Scraper.Processed.{process_eta_data-IsPredicted, IsPredicted}
use disturbancesmlx.Prelude.{
  ℕ, ◌+◌, ◌-◌, ◌^◌, ◌≤◌, ◌<◌, ◌≡◌, pos, sub_ℕ, ◌+ℤ◌, ◌-ℤ◌, Option, List, arith, Has,
}
use disturbancesmlx.Clock.{sub, wrap_int64, Time, Duration}
use disturbancesmlx.Vehicles.Eta.{minus, since, VehicleEta, duration_max, remaining_validity}
use disturbancesmlx.Scraper.Etas.{DirectionEtas, EtaScraper, process_eta_data}
use disturbancesmlx.Texts.{Text}

abbrev pub far : ℕ
far = 2 ^ 60

held_for :
    (now creation v : ℕ)
    → creation < now + far
    → now < creation + far
    → v < far
    → wrap_int64 (sub now creation +ℤ pos v) ≡ sub_ℕ (now + v) creation
unfolding sub ◌+ℤ◌
held_for now creation v early late short = ground arith

left_over :
    (now later creation v : ℕ)
    → now ≤ later
    → later < now + far
    → creation < now + far
    → now < creation + far
    → v < far
    → minus (sub_ℕ (now + v) creation) (since later creation) ≡ sub_ℕ (now + v) later
unfolding sub since minus ◌-ℤ◌
left_over now later creation v order soon early late short = ground arith

at_least_none : (n later : ℕ) → duration_max (pos 0) (sub_ℕ n later) ≡ pos (n - later)
unfolding duration_max
at_least_none n later = ground arith

-- Each prediction that the callback gets is of a train of an entry, as the entry says. When the
-- scraper holds predictions for `v` nanoseconds, it has v left, less the time that has passed since
-- the entry came up, and never less than 0, whatever the time and the clock of the service are, as
-- long as all these are less than 2^60 nanoseconds apart.
pub remaining_validity-process_eta_data :
    (lower : Text → Text) (parse_time : Text → Option Time) (sc : EtaScraper)
    (time_offset : Duration) (es : List (Time × DirectionEtas)) (p : VehicleEta) (v : ℕ)
    → Has p (process_eta_data lower parse_time sc time_offset es).0
    → sc.eta_validity ≡ pos v
    → v < far
    → (x : Time × DirectionEtas) × Has x es
      × IsPredicted lower parse_time sc time_offset x p
      × ((later : Time)
          → x.0 ≤ later
          → later < x.0 + far
          → p.computed < x.0 + far
          → x.0 < p.computed + far
          → remaining_validity later p ≡ pos (x.0 + v - later))
unfolding remaining_validity
remaining_validity-process_eta_data lower parse_time sc time_offset es p v m valid short =
    let (x, h, q) = process_eta_data-IsPredicted lower parse_time sc time_offset es p m in
    (
      x,
      h,
      q,
      λ later order soon early late.
          rw
            (
              q.held,
              valid,
              held_for x.0 p.computed v early late short,
              left_over x.0 later p.computed v order soon early late short,
            )
            (at_least_none (x.0 + v) later),
    )
