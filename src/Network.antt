-- ===== src/Network.antt =====
-- types/line.go: the schedules of a line, its time open and its directions. utils/utils.go: the
-- schedules of a lobby as lines of text.
pub mod Schedules
pub mod Search
pub mod Choice
pub mod Direction
pub mod Terminus
pub mod Open
pub mod Spans
pub mod Lobby
pub mod LobbyLines
