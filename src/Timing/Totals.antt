-- ===== src/Timing/Totals.antt =====
-- What AverageSpeedCached returns over time.
use disturbancesmlx.Prelude.{
  ℕ, ◌≡◌, ap, ◌⊎◌, inl, inr, false, none, some, List, [], ◌∷◌, Has, refl, sym, ◌∙◌, true, Option,
  Option-cases,
}
use disturbancesmlx.Timing.Speed.{
  SpeedCache, SpeedEvent, called, begun, ended, speed_step, average_speed_cached,
}

unfoldable pub speed_run : List SpeedEvent → SpeedCache → SpeedCache
speed_run [] s = s
speed_run (e ∷ es) s = speed_run es (speed_step e s)

abbrev no_speed : SpeedCache
no_speed = record { cached = none; in_progress = false }

-- Some work ended with the value.
abbrev pub EndedWith : ℕ → List SpeedEvent → Type 0
EndedWith v es = Has (ended (some v)) es

run-cached :
    (es : List SpeedEvent) (s : SpeedCache) (v : ℕ)
    → (speed_run es s).cached ≡ some v
    → (s.cached ≡ some v) ⊎ EndedWith v es
unfolding speed_run speed_step
run-cached [] s v h = inl h
run-cached (called ∷ es) s v h = elim (run-cached es s v h) [ inl a ↦ inl a | inr b ↦ inr (inr b) ]
run-cached (begun ∷ es) s v h = elim (run-cached es _ v h) [ inl a ↦ inl a | inr b ↦ inr (inr b) ]
run-cached (ended none ∷ es) s v h = elim (run-cached es s v h) [
  | inl a ↦ inl a
  | inr b ↦ inr (inr b)
]
run-cached (ended (some w) ∷ es) s v h = elim (run-cached es _ v h) [
  | inl a ↦ let q : w ≡ v = cc in inr (inl (ap (λ x. ended (some x)) q))
  | inr b ↦ inr (inr b)
]

-- Nothing but calls.
abbrev pub OnlyCalls : List SpeedEvent → Type 0
OnlyCalls [] = Unit
OnlyCalls (called ∷ es) = OnlyCalls es
OnlyCalls (begun ∷ es) = ⊥
OnlyCalls (ended r ∷ es) = ⊥

calls_same : (es : List SpeedEvent) (s : SpeedCache) → OnlyCalls es → speed_run es s ≡ s
unfolding speed_run speed_step
calls_same [] s o = refl
calls_same (called ∷ es) s o = calls_same es s o
calls_same (begun ∷ es) s o = absurd o
calls_same (ended r ∷ es) s o = absurd o

returned-cached : (s : SpeedCache) → (average_speed_cached s).0 ≡ s.cached
unfolding average_speed_cached
returned-cached s = elim (Option-cases s.cached) [ inl e ↦ rw e refl | inr (v, e) ↦ rw e refl ]

waiting_none :
    (s : SpeedCache)
    → s.cached ≡ none
    → s.in_progress ≡ true
    → average_speed_cached s ≡ (none, false)
unfolding average_speed_cached
waiting_none s n p = rw (n, p) refl

after_error :
    (es : List SpeedEvent) (s : SpeedCache)
    → OnlyCalls es
    → speed_run (begun ∷ ended none ∷ es) s ≡ record s { in_progress = true }
unfolding speed_run speed_step
after_error es s o = calls_same es (record s { in_progress = true }) o

-- A speed that a call returns is one that some work ended with. Once work has begun and ended with an
-- error, calls alone neither get a speed nor start the work again.
pub average_speed_cached_lem :
    (es : List SpeedEvent) (s : SpeedCache)
    → ((v : ℕ) → (average_speed_cached (speed_run es no_speed)).0 ≡ some v → EndedWith v es)
      × (s.cached ≡ none
          → OnlyCalls es
          → average_speed_cached (speed_run (begun ∷ ended none ∷ es) s) ≡ (none, false))
average_speed_cached_lem es s = (
  λ v h. elim (run-cached es no_speed v (sym (returned-cached (speed_run es no_speed)) ∙ h)) [
    | inl bad ↦ absurd (nothing bad)
    | inr found ↦ found
  ],
  λ n o.
      ap average_speed_cached (after_error es s o)
      ∙ waiting_none (record s { in_progress = true }) n refl,
)
  where
    nothing : {v : ℕ} → ◌≡◌ {A = Option ℕ} none (some v) → ⊥
    nothing e = cc
