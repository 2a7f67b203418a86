-- ===== src/Vehicles.antt =====
-- Real-time vehicles: predictions of arrival, their wire form, and the estimate from passengers
-- (types/vehicleeta.go, mqttgateway/vehicleeta.go, compute/vehiclehandler.go).
pub mod Eta
pub mod ServiceId
pub mod Live
pub mod Wire
pub mod Accuracy
pub mod Passengers
pub mod NextTrain
pub mod Arrival
