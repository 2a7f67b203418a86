-- ===== src/Positions.antt =====
-- compute/vehicleeta.go: the predictions of trains that are held, and where trains are.
pub mod Store
pub mod Handler
pub mod Lookup
pub mod Percentage
