-- ===== src/Trips.antt =====
-- Trips that users submit: storing and editing them (types/trip.go,
-- types/stationuse.go, resource/trip.go).
pub mod Model
pub mod Update
pub mod Stored
pub mod Edit
pub mod Edited
