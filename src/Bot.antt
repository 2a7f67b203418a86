-- ===== src/Bot.antt =====
-- discordbot/mutemanager.go: the channels in which the bot keeps quiet.
pub mod Mutes
pub mod History
