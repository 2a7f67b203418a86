-- ===== src/Reports/Votes.antt =====
-- What the votes of a line are after a report and after a clearing.
use disturbancesmlx.Prelude.{ℕ, ◌+◌, ◌*◌, ◌<◌, ◌≤◌, ◌≡◌, some, ◌==◌, if◌then◌else◌, arith}
use disturbancesmlx.Clock.{Time, minute}
use disturbancesmlx.Reports.Cache.{Cache, IsCache}
use disturbancesmlx.Reports.Model.{
  Report, ReportData, Key, rate_limiter_key, key_eq, Activity, rate_limited, add_report_manually,
  count_votes, vote_weight,
}

pub vote_weight_bounds :
    (r : Report) (a : Activity) {w : ℕ} → vote_weight r a ≡ some w → (1 ≤ w) × (w ≤ 30)
unfolding vote_weight
vote_weight_bounds r a e = ground arith

module _ (c : Cache Key ReportData) (laws : IsCache key_eq c) where
  -- The weight is added to the report's own line alone, and for the fifteen minutes that follow the
  -- same submitter is refused on that line with nothing changed.
  abbrev pub Accepted : Time → Report → ℕ → c.Carrier → c.Carrier → Type 0
  Accepted now r w s s' =
      ((line : ℕ)
        → count_votes c now line s' ≡ (if r.line == line then w else 0) + count_votes c now line s)
      × ((later : Time) (r' : Report) (weight : ℕ)
          → now ≤ later
          → later < now + 15 * minute
          → rate_limiter_key r' ≡ rate_limiter_key r
          → add_report_manually c later r' weight s' ≡ (s', some rate_limited))
