-- ===== src/Announcements/Sources.antt =====
-- announcements.go: AnnouncementStore. Sources and announcements are named by numbers.
use disturbancesmlx.Prelude.{
  ℕ, ◌≡◌, refl, ◌∙◌, Bool, false, ◌||◌, Option, none, some, List, [], ◌∷◌, ◌++◌, arith, set_key,
  at_key, at_key-set_key, ◌==◌, if◌then◌else◌, ap, true,
}

-- scraper.AnnouncementScraper
pub record AnnouncementScraper : Type 0 where
  pub sources : List ℕ
  pub announcements : ℕ → List ℕ

abbrev pub AnnouncementStore : Type 0
AnnouncementStore = List (ℕ × Option AnnouncementScraper)

-- The loop of AddScraper.
unfoldable pub add_sources : List ℕ → AnnouncementScraper → AnnouncementStore → AnnouncementStore
add_sources [] s store = store
add_sources (x ∷ xs) s store = add_sources xs s (set_key x (some s) store)

-- as.AddScraper(s)
unfoldable pub add_scraper : AnnouncementScraper → AnnouncementStore → AnnouncementStore
add_scraper s store = add_sources s.sources s store

abbrev pub announced : Option AnnouncementScraper → ℕ → List ℕ
announced none source = []
announced (some s) source = s.announcements source

-- as.SourceAnnouncements(source)
unfoldable pub source_announcements : ℕ → AnnouncementStore → List ℕ
source_announcements source store = announced (at_key none source store) source

-- as.AllAnnouncements(), whose order over the map is that of the list.
unfoldable pub all_announcements : AnnouncementStore → List ℕ
all_announcements [] = []
all_announcements ((source, none) ∷ rest) = all_announcements rest
all_announcements ((source, some s) ∷ rest) = s.announcements source ++ all_announcements rest

abbrev pub provides : ℕ → List ℕ → Bool
provides x [] = false
provides x (y ∷ ys) = y == x || provides x ys

at_key-add_sources :
    (x : ℕ) (xs : List ℕ) (s : AnnouncementScraper) (store : AnnouncementStore)
    → at_key none x (add_sources xs s store)
      ≡ (if provides x xs then some s else at_key none x store)
unfolding add_sources
at_key-add_sources x [] s store = refl
at_key-add_sources x (y ∷ ys) s store =
    at_key-add_sources x ys s (set_key y (some s) store)
    ∙ rw (at_key-set_key none (some s) x y store) (ground arith)

-- After AddScraper each source of the scraper gives the announcements of this scraper, and every other
-- source gives what it gave before.
pub source_announcements-add_scraper :
    (x : ℕ) (s : AnnouncementScraper) (store : AnnouncementStore)
    → source_announcements x (add_scraper s store)
      ≡ (if provides x s.sources then s.announcements x else source_announcements x store)
unfolding source_announcements add_scraper
source_announcements-add_scraper x s store =
    ap (λ o. announced o x) (at_key-add_sources x s.sources s store)
    ∙ by_source (provides x s.sources)
  where
    by_source :
        (b : Bool)
        → announced (if b then some s else at_key none x store) x
          ≡ (if b then s.announcements x else announced (at_key none x store) x)
    by_source true = refl
    by_source false = refl
