-- ===== src/Announcements/Control.antt =====
-- scrapers.go: handleControlScraper. The map has whether each scraper
-- runs, as Begin and End leave it.
use disturbancesmlx.Prelude.{
  ℕ, ◌≡◌, Bool, true, false, not, ◌&&◌, Option, none, some, List, set_key, at_key, ◌==◌,
  if◌then◌else◌, refl, subst, inl, inr, arith, at_key-set_key, Bool-cases, ap, ◌∙◌,
}

pub data ControlReply : Type 0 where
  done already_so no_such_scraper : ControlReply

-- The reply to a request, for a scraper that runs or not; `none` is no scraper of that identifier.
abbrev pub control :
    ℕ → Bool → Option Bool → List (ℕ × Option Bool) → List (ℕ × Option Bool) × ControlReply
control scraper enable none scrapers = (scrapers, no_such_scraper)
control scraper enable (some running) scrapers =
    if enable && not running
    then (set_key scraper (some true) scrapers, done)
    else if running
    then (set_key scraper (some false) scrapers, done)
    else (scrapers, already_so)

unfoldable pub handle_control_scraper :
    ℕ → Bool → List (ℕ × Option Bool) → List (ℕ × Option Bool) × ControlReply
handle_control_scraper scraper enable scrapers =
    control scraper enable (at_key none scraper scrapers) scrapers

-- A known scraper runs afterwards exactly if it did not run and was to be enabled, and the request to enable
-- one that runs ends it. All other scrapers are as they were.
pub handle_control_scraper_lem :
    (scraper other : ℕ) (enable running : Bool) (scrapers : List (ℕ × Option Bool))
    → at_key none scraper scrapers ≡ some running
    → at_key none other (handle_control_scraper scraper enable scrapers).0
      ≡ (if scraper == other then some (enable && not running) else at_key none other scrapers)
unfolding handle_control_scraper
handle_control_scraper_lem scraper other enable running scrapers e =
    ap (λ o. at_key none other (control scraper enable o scrapers).0) e ∙ by_state enable running e
  where
    by_state :
        (b r : Bool)
        → at_key none scraper scrapers ≡ some r
        → at_key none other (control scraper b (some r) scrapers).0
          ≡ (if scraper == other then some (b && not r) else at_key none other scrapers)
    by_state true false q = at_key-set_key none (some true) other scraper scrapers
    by_state true true q = at_key-set_key none (some false) other scraper scrapers
    by_state false true q = at_key-set_key none (some false) other scraper scrapers
    by_state false false q = elim (Bool-cases (scraper == other)) [
      | inl p ↦
          let same : scraper ≡ other = ground arith in
          rw p (subst (λ k. at_key none k scrapers ≡ some false) same q)
      | inr p ↦ rw p refl
    ]
