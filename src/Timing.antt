-- ===== src/Timing.antt =====
-- compute/typseconds.go: the typical durations of connections and transfers.
pub mod Tally
pub mod Samples
pub mod Update
pub mod Average
pub mod Bounds
pub mod Speed
pub mod Totals
