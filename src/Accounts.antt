-- ===== src/Accounts.antt =====
-- Clients of the service: the pairing of devices (types/androidpairrequest.go).
pub mod Pairing
pub mod Activation
