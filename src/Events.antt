-- ===== src/Events.antt =====
-- discordbot/posplay.go and the callbacks of posplay/posplay.go: the events of the Discord server
-- for which players get XP.
pub mod Model
pub mod Bridge
pub mod Messages
pub mod Win
pub mod Reward
pub mod Once
pub mod Participation
pub mod Steps
pub mod Reachable
pub mod Attempts
pub mod Choices
pub mod Ended
pub mod Panics
pub mod Safe
pub mod SafeSteps
pub mod Managed
