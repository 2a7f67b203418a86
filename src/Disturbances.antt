-- ===== src/Disturbances.antt =====
-- The life of a disturbance of a line: statuses come in, disturbances open, change and close
-- (types/status.go, types/disturbance.go, types/line.go).
pub mod Model
pub mod AddStatus
pub mod Change
pub mod Unique
pub mod Phase
pub mod Refines
pub mod Intervals
pub mod Reachable
pub mod Errors
pub mod Messages
pub mod Categories
