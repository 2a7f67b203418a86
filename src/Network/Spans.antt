-- ===== src/Network/Spans.antt =====
-- With a schedule for every weekday the open spans are those of the days around the window.
use disturbancesmlx.Prelude.{
  ℕ, zero, suc, ◌+◌, ◌≤◌, ◌<◌, ◌≡◌, refl, pos, inl, inr, Bool, false, Option, none, some, List, [],
  ◌∷◌, arith, Has, Bool-cases, Option-cases, ◌-◌,
}
use disturbancesmlx.Clock.{Time, before, sub}
use disturbancesmlx.Network.Choice.{first_cases}
use disturbancesmlx.Network.Open.{
  Span, Calendar, Opened, spans, LineOp, with_span, open_days, read_schedules, load_location,
  window, get_open_spans,
}
use disturbancesmlx.Network.Schedules.{
  LineSchedule, Day, for_weekday, or_else, get_schedule_for_day,
}

-- A schedule for each weekday that is not for holidays.
abbrev pub HasWeek : List LineSchedule → Type 0
HasWeek ss = (w : ℕ) → w < 7 → (s : LineSchedule) × Has s ss × (s.holiday ≡ false) × (s.day ≡ w)

-- What the calendar promises: the next day comes later, and a week has seven days.
pub record IsCalendar (c : Calendar) : Type 0 where
  pub advances : (t : Time) → t < c.next_day t
  pub week : (t : Time) → (c.day_of t).weekday < 7

-- The days from one time on, each the next of the one before, that come before another time.
pub data DaysUntil (c : Calendar) (last : Time) : Time → List Time → Type 0 where
  past : {t : Time} → last ≤ t → DaysUntil c last t []
  one_more :
      {t : Time} {ts : List Time}
      → t < last
      → DaysUntil c last (c.next_day t) ts
      → DaysUntil c last t (t ∷ ts)

last_choice : (a b o : Option LineSchedule) → or_else a (or_else b o) ≡ none → o ≡ none
last_choice none none o e = e
last_choice none (some b) o e = cc
last_choice (some a) b o e = cc

module _ (holidays : List ℕ) (schedules : List LineSchedule) (full : HasWeek schedules) where
  schedule_found :
      (d : Day)
      → d.weekday < 7
      → (s : LineSchedule) × (get_schedule_for_day holidays d schedules ≡ some s)
  unfolding get_schedule_for_day
  schedule_found d lt = elim (Option-cases (get_schedule_for_day holidays d schedules)) [
    | inr (s, e) ↦ (s, e)
    | inl e ↦
        let missing = last_choice _ _ _ e in
        let (s, m, h, k) = full d.weekday lt in
        elim (first_cases (for_weekday d) schedules) [
          | inl (q, n) ↦ absurd (clash s h k (n s m))
          | inr (s', q, m', y) ↦ absurd (some_none missing q)
        ]
  ]
    where
      clash :
          (s : LineSchedule) → s.holiday ≡ false → s.day ≡ d.weekday → for_weekday d s ≡ false → ⊥
      clash s h k n = ground arith

      some_none : {o : Option LineSchedule} {s : LineSchedule} → o ≡ none → o ≡ some s → ⊥
      some_none a b = cc

  module _ (c : Calendar) (fails : LineOp → Bool) (calendar : IsCalendar c) where
    -- The part within the window `w` of the opening of a day, by the schedule that holds on that day.
    abbrev pub part_on : Span → Time → Option Span
    part_on w t = elim (get_schedule_for_day holidays (c.day_of t) schedules) [
      | none ↦ none
      | some s ↦
          c.intersection w
            (record { begins = c.at_clock t s.open_time; lasts = pos s.open_duration })
    ]

    abbrev pub parts_on : Span → List Time → List Span
    parts_on w [] = []
    parts_on w (t ∷ ts) = elim (part_on w t) [ none ↦ parts_on w ts | some s ↦ s ∷ parts_on w ts ]

    with_span-spans :
        (x : Option Span) (o : Opened) (ss : List Span)
        → o ≡ spans ss
        → with_span x o ≡ spans (elim x [ none ↦ ss | some s ↦ s ∷ ss ])
    with_span-spans none o ss e = e
    with_span-spans (some s) o ss e = rw e refl

    Found : Span → Time → Time → Opened → Type 0
    Found w first last o =
        (ts : List Time) × DaysUntil c last first ts × (o ≡ spans (parts_on w ts))

    open_days-Found :
        (fuel : ℕ) (whole : Span) (et ct : Time)
        → et ≤ ct + fuel
        → Found whole ct et (open_days c fails holidays schedules fuel whole et ct)
    unfolding open_days Found
    open_days-Found zero whole et ct le =
        let e : before ct et ≡ false = ground arith in ([], past (omega arith), rw e refl)
    open_days-Found (suc fuel) whole et ct le = elim (Bool-cases (before ct et)) [
      | inr e ↦ ([], past (ground arith), rw e refl)
      | inl e ↦
          let (s, q) = schedule_found (c.day_of ct) (calendar.week ct) in
          let step = calendar.advances ct in
          let (ts, days, o) = open_days-Found fuel whole et (c.next_day ct) (omega (arith, step)) in
          (
            ct ∷ ts,
            one_more (ground arith) days,
            rw (e, parts_on, q) (with_span-spans _ _ (parts_on whole ts) o),
          )
    ]

    opened_of :
        (start end : Time) (o : Opened)
        → fails read_schedules ≡ false
        → fails load_location ≡ false
        → open_days c fails holidays schedules
            (c.next_day end - c.previous_day start)
            (window c fails holidays schedules start end)
            (c.next_day end)
            (c.previous_day start)
          ≡ o
        → get_open_spans c fails holidays schedules start end ≡ o
    unfolding get_open_spans
    opened_of start end o f g e = rw (f, g) e

    -- With a schedule for each weekday and no failing call, getOpenSpans ends and does not panic. It
    -- gives exactly the parts within the window of the openings of the days from the day before the
    -- start of the window until the day after its end, in order, each by the schedule of its day.
    pub get_open_spans_lem :
        (start end : Time)
        → fails read_schedules ≡ false
        → fails load_location ≡ false
        → (ts : List Time) × DaysUntil c (c.next_day end) (c.previous_day start) ts
          × (get_open_spans c fails holidays schedules start end
              ≡ spans (parts_on (record { begins = start; lasts = sub end start }) ts))
    unfolding Found
    get_open_spans_lem start end f g =
        let et = c.next_day end in
        let ct = c.previous_day start in
        let (ts, days, e) =
          open_days-Found (et - ct) (window c fails holidays schedules start end) et ct
            (omega arith) in
        (ts, days, opened_of start end (spans (parts_on _ ts)) f g e)
