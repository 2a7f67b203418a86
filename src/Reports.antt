-- ===== src/Reports.antt =====
-- User reports of disturbances and the votes that they are (compute/reports.go, types/report.go).
pub mod Cache
pub mod Model
pub mod Votes
pub mod Clear
pub mod Evaluate
pub mod Situation
pub mod Lifecycle
