-- ===== src/Examples.antt =====
-- Tests, and the theorems at concrete inputs.
mod Disturbances
mod Reports
mod Stats
mod Vehicles
mod Arrival
mod Bot
mod Accounts
mod Trips
mod PosPlay
mod Achievements
mod Network
mod Timing
mod Positions
mod Events
mod Managed
mod Scraper
mod Lobby
