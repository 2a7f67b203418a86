-- ===== src/Examples/Bot.antt =====
-- A channel that is muted for an hour, then for good, and then unmuted.
use disturbancesmlx.Prelude.{
  ℕ, ◌*◌, ◌≡◌, refl, true, false, ◌||◌, List, [], ◌∷◌, leb, pos, set_key, delete_key, at_key,
}
use disturbancesmlx.Bot.History.{
  MuteCommand, mute, unmute, perma_mute, obey, run_log, muted_until, muted_for_good, muted_any_lem,
}
use disturbancesmlx.Bot.Mutes.{mute_channel, unmute_channel, perma_mute_channel, muted_any}
use disturbancesmlx.Clock.{hour}

-- The latest command comes first.
abbrev commands : List (ℕ × MuteCommand)
commands = (7, unmute) ∷ (8, perma_mute) ∷ (7, mute (2 * hour) (pos hour)) ∷ []

unmuted : muted_any (2 * hour) 7 (run_log commands) ≡ false
unfolding muted_any run_log obey mute_channel unmute_channel perma_mute_channel set_key delete_key
    at_key
unmuted = refl

muted_for_ever : muted_any (9 * hour) 8 (run_log commands) ≡ true
unfolding muted_any run_log obey mute_channel unmute_channel perma_mute_channel set_key delete_key
    at_key
muted_for_ever = refl

muted_any_lem_example :
    muted_any (2 * hour) 7 (run_log commands)
    ≡ (leb (2 * hour) (muted_until 7 commands) || muted_for_good 7 commands)
muted_any_lem_example = muted_any_lem (2 * hour) 7 commands
