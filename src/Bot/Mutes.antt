-- ===== src/Bot/Mutes.antt =====
-- discordbot/mutemanager.go: MuteManager. Each operation holds the lock, so that they run one after the
-- other; a map is an association list with one entry for a key.
use disturbancesmlx.Prelude.{
  ℕ, ◌+◌, ◌-◌, Bool, true, false, not, ◌||◌, List, [], pos_part, neg_part, delete_key, set_key,
  at_key,
}
use disturbancesmlx.Clock.{Time, Duration, zero_time, after}

pub record MuteManager : Type 0 where
  pub stop_mute : List (ℕ × Time)
  pub channel_mute : List (ℕ × Bool)

abbrev pub new_mute_manager : MuteManager
new_mute_manager = record { stop_mute = []; channel_mute = [] }

-- t.Add(d), for a time that stays after the zero time.
abbrev pub add_time : Time → Duration → Time
add_time t d = t + pos_part d - neg_part d

unfoldable pub mute_channel : Time → ℕ → Duration → MuteManager → MuteManager
mute_channel now channel d m = record m { stop_mute = set_key channel (add_time now d) m.stop_mute }

unfoldable pub unmute_channel : ℕ → MuteManager → MuteManager
unmute_channel channel m = record m { stop_mute = delete_key channel m.stop_mute }

unfoldable pub perma_mute_channel : ℕ → MuteManager → MuteManager
perma_mute_channel channel m = record m { channel_mute = set_key channel true m.channel_mute }

unfoldable pub perma_unmute_channel : ℕ → MuteManager → MuteManager
perma_unmute_channel channel m = record m { channel_mute = delete_key channel m.channel_mute }

unfoldable pub muted_temporarily : Time → ℕ → MuteManager → Bool
muted_temporarily now channel m = not (after now (at_key zero_time channel m.stop_mute))

unfoldable pub muted_permanently : ℕ → MuteManager → Bool
muted_permanently channel m = at_key false channel m.channel_mute

unfoldable pub muted_any : Time → ℕ → MuteManager → Bool
muted_any now channel m =
    not (after now (at_key zero_time channel m.stop_mute)) || at_key false channel m.channel_mute
