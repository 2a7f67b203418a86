-- ===== src/PosPlay.antt =====
-- The game: the experience points of trips, and the transactions that hold them
-- (posplay/rewards.go, posplay/posplay.go, types/pp_xp_tx.go, types/pp_player.go).
pub mod Reward
pub mod Worth
pub mod Transactions
pub mod Balance
pub mod Credit
pub mod Achievements
