-- ===== src/Announcements.antt =====
-- announcements.go and scrapers.go: the announcements of scrapers, and how scrapers are controlled.
pub mod Sources
pub mod Control
