-- ===== src/PosPlay/Achievements.antt =====
-- The achievements of the game: what each strategy asks for, and the award
-- (posplay/achievements.go, posplay/achievementstrategies.go, types/pp_player_achievement.go).
pub mod Model
pub mod Award
pub mod Strategies
pub mod Handlers
pub mod Criteria
pub mod Once
pub mod Settled
