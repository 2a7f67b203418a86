-- ===== src/Stats.antt =====
-- Users in transit, from their real-time reports (compute/stats.go).
pub mod Model
pub mod Presence
