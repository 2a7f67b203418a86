-- ===== src/Network/Open.antt =====
-- types/line.go: the spans of time in which a line is open, and those of its disturbances in them.
use disturbancesmlx.Prelude.{
  ℕ, zero, suc, ◌+◌, ◌-◌, Bool, not, ◌&&◌, ◌||◌, Option, none, some, List, [], ◌∷◌, pos, ◌+ℤ◌, ◌-ℤ◌,
  ltb_ℤ, length, if◌then◌else◌,
}
use disturbancesmlx.Clock.{Time, Duration, millisecond, after, before, sub, wrap_int64}
use disturbancesmlx.Network.Schedules.{LineSchedule, Day, get_schedule_for_day}

-- timespan.Span
pub record Span : Type 0 where
  pub begins : Time
  pub lasts : Duration

-- What the code asks of the calendar of the line's time zone and of the library timespan.
pub record Calendar : Type 0 where
  -- t.AddDate(0, 0, 1), t.AddDate(0, 0, -1)
  pub next_day : Time → Time
  pub previous_day : Time → Time
  -- t.YearDay() and t.Weekday()
  pub day_of : Time → Day
  -- time.Date with the day of one time and the hours of the other
  pub at_clock : Time → ℕ → Time
  -- a.Intersection(b)
  pub intersection : Span → Span → Option Span

-- What getOpenSpans ends with.
pub data Opened : Type 0 where
  spans : List Span → Opened
  failed panicked exhausted : Opened

pub data LineOp : Type 0 where
  begin_query read_schedules load_location read_disturbances : LineOp

abbrev pub with_span : Option Span → Opened → Opened
with_span none o = o
with_span (some s) (spans ss) = spans (s ∷ ss)
with_span (some s) failed = failed
with_span (some s) panicked = panicked
with_span (some s) exhausted = exhausted

-- What is read of a disturbance.
pub record Outage : Type 0 where
  pub declared : Bool
  pub o_from : Time
  pub o_until : Time
  pub o_over : Bool
  pub u_from : Time
  pub u_until : Time
  pub u_over : Bool

module _ (c : Calendar) (fails : LineOp → Bool) (holidays : List ℕ)
    (schedules : List LineSchedule) where
  -- openSpan of the day of `ct`; a schedule that is not open is not told apart.
  abbrev pub open_span : Time → LineSchedule → Span
  open_span ct s = record { begins = c.at_clock ct s.open_time; lasts = pos s.open_duration }

  -- The loop over the days from `ct` to `et`; `exhausted` is out of fuel.
  unfoldable pub open_days : ℕ → Span → Time → Time → Opened
  open_days zero whole et ct = if before ct et then exhausted else spans []
  open_days (suc fuel) whole et ct =
      let rest = open_days fuel whole et (c.next_day ct) in
      if before ct et
      then elim (get_schedule_for_day holidays (c.day_of ct) schedules) [
        | none ↦ panicked
        | some s ↦ with_span (c.intersection whole (open_span ct s)) rest
      ]
      else spans []

  abbrev pub window : Time → Time → Span
  window start end = record { begins = start; lasts = sub end start }

  -- line.getOpenSpans(tx, startTime, endTime), with a round for each nanosecond.
  unfoldable pub get_open_spans : Time → Time → Opened
  get_open_spans start end =
      if fails read_schedules || fails load_location
      then failed
      else (let et = c.next_day end in
          let ct = c.previous_day start in open_days (et - ct) (window start end) et ct)

  abbrev pub sum_spans : List Span → Duration
  sum_spans [] = pos 0
  sum_spans (s ∷ ss) = wrap_int64 (s.lasts +ℤ sum_spans ss)

  -- line.getClosedDuration(tx, startTime, endTime); `none` is an error or a panic.
  unfoldable pub get_closed_duration : Time → Time → Option Duration
  get_closed_duration start end = elim (get_open_spans start end) [
    | spans ss ↦ some (wrap_int64 (sub end start -ℤ sum_spans ss))
    | failed ↦ none
    | panicked ↦ none
    | exhausted ↦ none
  ]

  -- line.CurrentlyClosed(tx), which reads the clock twice.
  unfoldable pub currently_closed : Time → Time → Option Bool
  currently_closed now now' = elim (get_closed_duration now (now' + millisecond)) [
    | none ↦ none
    | some d ↦ some (ltb_ℤ (pos 0) d)
  ]

  -- thisEnd and thisStart, cut to the window; one that is not over lasts until now.
  abbrev pub cut_end : Time → Time → Bool → Time → Time
  cut_end end now over until =
      let this_end = if over then until else now in if after this_end end then end else this_end

  abbrev pub cut_start : Time → Time → Time
  cut_start start this_start = if before this_start start then start else this_start

  -- The interval of a disturbance that counts; `none` skips it.
  unfoldable pub outage_span : Bool → Time → Time → Time → Outage → Option Span
  outage_span official_only start end now d =
      if official_only && d.declared
      then some (window (cut_start start d.o_from) (cut_end end now d.o_over d.o_until))
      else if not official_only
      then some (window (cut_start start d.u_from) (cut_end end now d.u_over d.u_until))
      else none

  abbrev pub overlaps : Span → List Span → Duration
  overlaps s [] = pos 0
  overlaps s (o ∷ os) = elim (c.intersection s o) [
    | none ↦ overlaps s os
    | some x ↦ wrap_int64 (x.lasts +ℤ overlaps s os)
  ]

  unfoldable pub down_time : Bool → Time → Time → Time → List Span → List Outage → Duration
  down_time official_only start end now os [] = pos 0
  down_time official_only start end now os (d ∷ ds) =
      let rest = down_time official_only start end now os ds in
      elim (outage_span official_only start end now d) [
        | none ↦ rest
        | some s ↦ wrap_int64 (overlaps s os +ℤ rest)
      ]

  -- line.DisturbanceDuration(node, startTime, endTime, officialOnly), with the disturbances of the query.
  unfoldable pub disturbance_duration :
      Bool → Time → Time → Time → List Outage → Option (Duration × ℕ)
  disturbance_duration official_only start end now ds =
      if fails begin_query || fails read_disturbances
      then none
      else elim (get_open_spans start end) [
        | spans os ↦ some (down_time official_only start end now os ds, length ds)
        | failed ↦ none
        | panicked ↦ none
        | exhausted ↦ none
      ]
