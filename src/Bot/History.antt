-- ===== src/Bot/History.antt =====
-- Whether a channel is muted follows from the last commands about it alone.
use disturbancesmlx.Prelude.{
  ℕ, ◌≡◌, refl, ◌∙◌, Bool, false, not, ◌&&◌, ◌||◌, List, [], ◌∷◌, arith, leb, ◌==◌, if◌then◌else◌,
  at_key-delete_key, at_key-set_key, at_key,
}
use disturbancesmlx.Bot.Mutes.{
  MuteManager, new_mute_manager, add_time, mute_channel, unmute_channel, perma_mute_channel,
  perma_unmute_channel, muted_any,
}
use disturbancesmlx.Clock.{Time, Duration, zero_time}

pub data MuteCommand : Type 0 where
  mute : Time → Duration → MuteCommand
  unmute perma_mute perma_unmute : MuteCommand

-- The command, given to a channel.
unfoldable pub obey : ℕ → MuteCommand → MuteManager → MuteManager
obey channel (mute now d) m = mute_channel now channel d m
obey channel unmute m = unmute_channel channel m
obey channel perma_mute m = perma_mute_channel channel m
obey channel perma_unmute m = perma_unmute_channel channel m

-- The log has the latest command first.
unfoldable pub run_log : List (ℕ × MuteCommand) → MuteManager
run_log [] = new_mute_manager
run_log (x ∷ xs) = obey x.0 x.1 (run_log xs)

-- Until when the last temporary command of the channel mutes it.
unfoldable pub muted_until : ℕ → List (ℕ × MuteCommand) → Time
muted_until c [] = zero_time
muted_until c ((k, mute now d) ∷ xs) = if k == c then add_time now d else muted_until c xs
muted_until c ((k, unmute) ∷ xs) = if k == c then zero_time else muted_until c xs
muted_until c (x ∷ xs) = muted_until c xs

-- Whether the last permanent command of the channel mutes it.
unfoldable pub muted_for_good : ℕ → List (ℕ × MuteCommand) → Bool
muted_for_good c [] = false
muted_for_good c ((k, perma_mute) ∷ xs) = k == c || muted_for_good c xs
muted_for_good c ((k, perma_unmute) ∷ xs) = not (k == c) && muted_for_good c xs
muted_for_good c (x ∷ xs) = muted_for_good c xs

until-log :
    (c : ℕ) (log : List (ℕ × MuteCommand))
    → at_key zero_time c (run_log log).stop_mute ≡ muted_until c log
unfolding run_log muted_until obey mute_channel unmute_channel perma_mute_channel
    perma_unmute_channel at_key
until-log c [] = refl
until-log c ((k, mute now d) ∷ xs) = at_key-set_key _ _ c k _ ∙ rw (until-log c xs) refl
until-log c ((k, unmute) ∷ xs) = at_key-delete_key _ c k _ ∙ rw (until-log c xs) refl
until-log c ((k, perma_mute) ∷ xs) = until-log c xs
until-log c ((k, perma_unmute) ∷ xs) = until-log c xs

good-log :
    (c : ℕ) (log : List (ℕ × MuteCommand))
    → at_key false c (run_log log).channel_mute ≡ muted_for_good c log
unfolding run_log muted_for_good obey mute_channel unmute_channel perma_mute_channel
    perma_unmute_channel at_key
good-log c [] = refl
good-log c ((k, mute now d) ∷ xs) = good-log c xs
good-log c ((k, unmute) ∷ xs) = good-log c xs
good-log c ((k, perma_mute) ∷ xs) = at_key-set_key _ _ c k _ ∙ ground (arith, good-log c xs)
good-log c ((k, perma_unmute) ∷ xs) = at_key-delete_key _ c k _ ∙ ground (arith, good-log c xs)

-- After any sequence of commands a channel is muted exactly until the time that its last temporary
-- command gives, or for good if its last permanent command says so, whatever the commands to other
-- channels are.
pub muted_any_lem :
    (now : Time) (c : ℕ) (log : List (ℕ × MuteCommand))
    → muted_any now c (run_log log) ≡ (leb now (muted_until c log) || muted_for_good c log)
unfolding muted_any
muted_any_lem now c log = rw (until-log c log, good-log c log) (ground arith)
