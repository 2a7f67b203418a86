-- ===== src/PosPlay/Achievements/Award.antt =====
-- posplay/achievements.go: achieveAchievement, and the frame that the handlers of all strategies
-- share.
use disturbancesmlx.Prelude.{
  ℕ, String, Bool, false, ◌||◌, Option, none, some, List, [], ℤ, pos, negsuc, ◌==◌, if◌then◌else◌,
}
use disturbancesmlx.Clock.{Time, zero_time}
use disturbancesmlx.PosPlay.Achievements.Model.{
  PlayerAchievement, GameDb, GameOp, begin_handler, find_achievement, begin_award, update_award,
  read_settings, commit_award, commit_handler, award_xp, find_row, put_row, has_achieved,
}
use disturbancesmlx.PosPlay.Transactions.{XpTransaction, do_xp_transaction}

-- types.PPAchievementStrategy with the configuration that the achievement gives it.
pub data EventKind : Type 0 where
  reaction challenge any_event : EventKind

pub data LineChoice : Type 0 where
  one_line : ℕ → LineChoice
  one_network : ℕ → LineChoice
  anywhere : LineChoice

pub data Direction : Type 0 where
  ascending descending both_ways other_way : Direction

pub data Submission : Type 0 where
  of_trip of_trip_edit of_report of_nothing : Submission

pub data Strategy : Type 0 where
  reach_level : ℕ → Strategy
  event_participation : EventKind → ℕ → Strategy
  visit_stations : List ℕ → Bool → Strategy
  visit_throughout : Option ℕ → Direction → Strategy
  submit : Submission → Strategy
  trip_during_disturbance : LineChoice → Bool → Strategy

-- types.PPAchievement
pub record Achievement : Type 0 where
  pub id : ℕ
  pub xp_reward : ℤ
  pub strategy : Strategy

abbrev pub is_zero_ℤ : ℤ → Bool
is_zero_ℤ (pos n) = n == 0
is_zero_ℤ (negsuc n) = false

-- The parameters: the failing calls, the identifier that uuid.NewV4 gives, and the text that is
-- stored with the reward of an achievement.
module _ (fails : GameOp → Bool) (new_uuid : Option ℕ) (extra_of : ℕ → String) where
  -- The reward of the award. The transaction is never merged, so the week is not looked at.
  unfoldable pub pay : ℕ → Achievement → Time → List XpTransaction → Option (List XpTransaction)
  pay player a time rows =
      if is_zero_ℤ a.xp_reward
      then some rows
      else (let (rows', notice) =
            do_xp_transaction (λ o. fails (award_xp o)) player time a.xp_reward "ACHIEVEMENT_REWARD"
              (some (extra_of a.id)) false zero_time new_uuid rows in
          elim notice [ none ↦ none | some n ↦ some rows' ])

  -- achieveAchievement(tx, player, achievement, achievedTime); `none` is an error. The row that it
  -- writes has no extra data.
  unfoldable pub award : ℕ → Achievement → Time → GameDb → Option GameDb
  award player a time db =
      if fails begin_award || fails update_award
      then none
      else elim (pay player a time db.xp_rows) [
        | none ↦ none
        | some rows ↦
            if fails read_settings || fails commit_award
            then none
            else some (record {
              achievements =
                  put_row
                    (record {
                      player = player;
                      achievement = a.id;
                      achieved = some time;
                      visited = [];
                    })
                    db.achievements;
              xp_rows = rows;
            })
      ]

  unfoldable pub award_if : Bool → ℕ → Achievement → Time → GameDb → Option GameDb
  award_if earned player a time db = if earned then award player a time db else some db

  -- existingData, which is nil after any error of the query.
  abbrev pub existing : ℕ → Achievement → GameDb → Option PlayerAchievement
  existing player a db =
      if fails find_achievement then none else find_row player a.id db.achievements

  -- What every handler does around its own part, whose `none` is an error: an error or a failing
  -- commit leaves the database as it was.
  unfoldable pub guarded :
      (Option PlayerAchievement → GameDb → Option GameDb) → ℕ → Achievement → GameDb → GameDb
  guarded body player a db =
      let row = existing player a db in
      if fails begin_handler || has_achieved row
      then db
      else elim (body row db) [ none ↦ db | some db' ↦ if fails commit_handler then db else db' ]
