-- ===== src/PosPlay/Achievements/Model.antt =====
-- The rows of the players' achievements, and the calls that can fail on the way to an award.
use disturbancesmlx.Prelude.{
  ℕ, ◌≡◌, refl, Bool, false, ◌&&◌, Option, none, some, List, [], ◌∷◌, arith, ◌==◌, if◌then◌else◌,
}
use disturbancesmlx.Clock.{Time}
use disturbancesmlx.Disturbances.Model.{valid}
use disturbancesmlx.PosPlay.Transactions.{XpTransaction, XpOp}

-- types.PPPlayerAchievement: `achieved` is its time, if Achieved; `visited` is what Extra holds, no
-- stations where it is empty.
pub record PlayerAchievement : Type 0 where
  pub player : ℕ
  pub achievement : ℕ
  pub achieved : Option Time
  pub visited : List ℕ

-- The tables pp_player_has_achievement and pp_xp_tx.
pub record GameDb : Type 0 where
  pub achievements : List PlayerAchievement
  pub xp_rows : List XpTransaction

pub data GameOp : Type 0 where
  begin_handler find_achievement read_balance count_events read_network update_progress : GameOp
  begin_award update_award read_settings commit_award commit_handler : GameOp
  award_xp : XpOp → GameOp

abbrev pub same_achievement : ℕ → ℕ → PlayerAchievement → Bool
same_achievement player ach r = r.player == player && r.achievement == ach

-- player.Achievement(tx, id), with the primary key of the table.
unfoldable pub find_row : ℕ → ℕ → List PlayerAchievement → Option PlayerAchievement
find_row player ach [] = none
find_row player ach (r ∷ rs) =
    if same_achievement player ach r then some r else find_row player ach rs

-- The INSERT … ON CONFLICT of PPPlayerAchievement.Update.
unfoldable pub put_row : PlayerAchievement → List PlayerAchievement → List PlayerAchievement
put_row x [] = x ∷ []
put_row x (r ∷ rs) = if same_achievement x.player x.achievement r then x ∷ rs else r ∷ put_row x rs

abbrev pub has_achieved : Option PlayerAchievement → Bool
has_achieved none = false
has_achieved (some r) = valid r.achieved

-- The map laws of the table.
pub find_row-put_row :
    (player ach : ℕ) (x : PlayerAchievement) (rs : List PlayerAchievement)
    → find_row player ach (put_row x rs)
      ≡ (if same_achievement player ach x then some x else find_row player ach rs)
unfolding find_row put_row
find_row-put_row player ach x [] = refl
find_row-put_row player ach x (r ∷ rs) = ground (arith, find_row-put_row player ach x rs)
