-- ===== src/PosPlay/Achievements/Strategies.antt =====
-- posplay/achievementstrategies.go: the handlers of the strategies. The stations and the lines are
-- named by their identifiers, whose text is `text_of`.
use disturbancesmlx.Prelude.{
  ℕ, ◌+◌, String, Bool, true, false, not, ◌&&◌, ◌||◌, Option, none, some, List, [], ◌∷◌, ◌++◌,
  str_eq, ℤ, pos, ◌+ℤ◌, ltb_ℤ, leb_ℤ, count, leb, ◌==◌, if◌then◌else◌,
}
use disturbancesmlx.Clock.{Time}
use disturbancesmlx.PosPlay.Achievements.Award.{
  EventKind, reaction, challenge, any_event, LineChoice, one_line, one_network, anywhere, Direction,
  ascending, descending, both_ways, other_way,
}
use disturbancesmlx.Disturbances.Model.{valid}
use disturbancesmlx.PosPlay.Achievements.Model.{PlayerAchievement}
use disturbancesmlx.PosPlay.Transactions.{XpTransaction}
use disturbancesmlx.Trips.Model.{StationUse}

-- What the handlers ask of the player, the network and the disturbances; `none` is an error.
pub record World : Type 0 where
  -- types.PosPlayPlayerLevel, a float64 power of the points.
  pub level_of : ℤ → ℤ
  pub joined : ℕ → Time
  pub text_of : ℕ → List ℕ
  -- GetStation and Closed
  pub station_closed : ℕ → Option Bool
  -- GetLines, GetLine with Stations, GetNetwork with Lines
  pub all_lines : Option (List ℕ)
  pub line_stations : ℕ → Option (List ℕ)
  pub network_lines : ℕ → Option (List ℕ)
  pub line_known : ℕ → Bool
  pub network_known : ℕ → Bool
  -- Station.Lines and Station.Network
  pub lines_of : ℕ → Option (List ℕ)
  pub network_of : ℕ → ℕ
  -- Whether DisturbancesBetween(start, end, officialOnly) gives any, of a line or of all lines.
  pub disturbed : Option ℕ → Time → Time → Bool → Option Bool

abbrev pub member : ℕ → List ℕ → Bool
member x [] = false
member x (y ∷ ys) = y == x || member x ys

abbrev pub keep_if : (ℕ → Bool) → List ℕ → List ℕ
keep_if p [] = []
keep_if p (x ∷ xs) = if p x then x ∷ keep_if p xs else keep_if p xs

abbrev pub is_nil : List ℕ → Bool
is_nil [] = true
is_nil (x ∷ xs) = false

-- The stations of the uses that were not added by hand.
abbrev pub own_stations : List StationUse → List ℕ
own_stations [] = []
own_stations (u ∷ us) = if u.manual then own_stations us else u.use_station ∷ own_stations us

-- player.XPBalanceBetween(tx, start, end)
abbrev pub balance_between : ℕ → Time → Time → List XpTransaction → ℤ
balance_between player start end [] = pos 0
balance_between player start end (x ∷ xs) =
    (if x.discord_id == player && leb start x.tx_time && leb x.tx_time end then x.value else pos 0)
    +ℤ balance_between player start end xs

-- The tables with a column "discord_id". Of these pp_xp_tx alone has a column "type", and a query of
-- a column that the table lacks is an error.
pub data Table : Type 0 where
  pp_player pp_xp_tx : Table

abbrev pub has_type_column : Table → Bool
has_type_column pp_player = false
has_type_column pp_xp_tx = true

abbrev pub count_in : Table → ℕ → String → List XpTransaction → Option ℕ
count_in table player tx_type rows =
    if has_type_column table
    then some (count (λ x. x.discord_id == player && str_eq x.tx_type tx_type) rows)
    else none

-- player.CountXPTransactionsWithType(tx, txtype), which asks the table of the players.
unfoldable pub count_type : ℕ → String → List XpTransaction → Option ℕ
count_type player tx_type rows = count_in pp_player player tx_type rows

-- curLevel > prevLevel && prevLevel < achievementLevel && curLevel >= achievementLevel
abbrev pub crossed : ℤ → ℤ → ℕ → Bool
crossed prev cur level = ltb_ℤ prev cur && ltb_ℤ prev (pos level) && leb_ℤ (pos level) cur

-- The transaction is of a type that the achievement counts.
abbrev pub counts_type : EventKind → String → Bool
counts_type reaction t = str_eq t "DISCORD_REACTION_EVENT"
counts_type challenge t = str_eq t "DISCORD_CHALLENGE_EVENT"
counts_type any_event t = true

unfoldable pub participations : EventKind → ℕ → List XpTransaction → Option ℕ
participations reaction player rows = count_type player "DISCORD_REACTION_EVENT" rows
participations challenge player rows = count_type player "DISCORD_CHALLENGE_EVENT" rows
participations any_event player rows = elim (count_type player "DISCORD_REACTION_EVENT" rows) [
  | none ↦ none
  | some reactions ↦ elim (count_type player "DISCORD_CHALLENGE_EVENT" rows) [
    | none ↦ none
    | some challenges ↦ some (reactions + challenges)
  ]
]

-- strings.Contains, over bytes.
unfoldable pub is_prefix : List ℕ → List ℕ → Bool
is_prefix [] hay = true
is_prefix (n ∷ ns) [] = false
is_prefix (n ∷ ns) (h ∷ hs) = n == h && is_prefix ns hs

unfoldable pub contains_bytes : List ℕ → List ℕ → Bool
contains_bytes needle [] = is_prefix needle []
contains_bytes needle (h ∷ hs) = is_prefix needle (h ∷ hs) || contains_bytes needle hs

module _ (w : World) where
  -- The station is known, Closed gives no error, and it is not closed.
  abbrev pub is_open : ℕ → Bool
  is_open s = elim (w.station_closed s) [ none ↦ false | some c ↦ not c ]

  -- stationsLeftToVisit after the trip.
  unfoldable pub left_to_visit : List ℕ → Bool → Option PlayerAchievement → List StationUse → List ℕ
  left_to_visit stations single row uses =
      let left = elim (if single then none else row) as (λ o. List ℕ) [
        | none ↦ stations
        | some r ↦ keep_if (λ x. is_open x && not (member x r.visited)) stations
      ] in
      keep_if (λ x. not (member x (own_stations uses))) left

  -- The texts of the stations, each with "|" after it.
  unfoldable pub joined_texts : List ℕ → List ℕ
  joined_texts [] = []
  joined_texts (s ∷ ss) = w.text_of s ++ (b'|' ∷ joined_texts ss)

  -- The stations of a line that are not closed; `none` if one of the queries fails.
  unfoldable pub open_stations : List ℕ → Option (List ℕ)
  open_stations [] = some []
  open_stations (s ∷ ss) = elim (w.station_closed s) [
    | none ↦ none
    | some closed ↦ elim (open_stations ss) [
      | none ↦ none
      | some rest ↦ some (if closed then rest else s ∷ rest)
    ]
  ]

  abbrev pub reversed : List ℕ → List ℕ → List ℕ
  reversed acc [] = acc
  reversed acc (x ∷ xs) = reversed (x ∷ acc) xs

  -- The needles of a line: `fallthrough` under the label takes the first case on to the second.
  unfoldable pub needles : Direction → List ℕ → List (List ℕ)
  needles ascending ss = joined_texts ss ∷ joined_texts (reversed [] ss) ∷ []
  needles both_ways ss = joined_texts ss ∷ joined_texts (reversed [] ss) ∷ []
  needles descending ss = joined_texts (reversed [] ss) ∷ []
  needles other_way ss = []

  unfoldable pub possible_needles : Direction → List ℕ → Option (List (List ℕ))
  possible_needles direction [] = some []
  possible_needles direction (l ∷ ls) = elim (w.line_stations l) [
    | none ↦ none
    | some ss ↦ elim (open_stations ss) [
      | none ↦ none
      | some opened ↦ elim (possible_needles direction ls) [
        | none ↦ none
        | some rest ↦ some (needles direction opened ++ rest)
      ]
    ]
  ]

  unfoldable pub found_in : List ℕ → List (List ℕ) → Bool
  found_in haystack [] = false
  found_in haystack (n ∷ ns) = contains_bytes n haystack || found_in haystack ns

  -- hadDisturbances, over the lines of a network.
  unfoldable pub any_disturbed : List ℕ → Time → Time → Bool → Option Bool
  any_disturbed [] start end official = some false
  any_disturbed (l ∷ ls) start end official = elim (w.disturbed (some l) start end official) [
    | none ↦ none
    | some true ↦ some true
    | some false ↦ any_disturbed ls start end official
  ]

  -- Whether `err` is nil after GetNetwork and GetLine. For any line of any network neither is called,
  -- and `err` is still that of Player.Achievement, which is an error for a player without a row.
  unfoldable pub is_chosen : LineChoice → Option PlayerAchievement → Bool
  is_chosen (one_line l) row = w.line_known l
  is_chosen (one_network n) row = w.network_known n
  is_chosen anywhere row = valid row

  unfoldable pub had_disturbances : LineChoice → Time → Time → Bool → Option Bool
  had_disturbances (one_line l) start end official = w.disturbed (some l) start end official
  had_disturbances (one_network n) start end official = elim (w.network_lines n) [
    | none ↦ none
    | some ls ↦ any_disturbed ls start end official
  ]
  had_disturbances anywhere start end official = w.disturbed none start end official

  -- The station is affected: it is of the line, or of the network.
  unfoldable pub on_line : ℕ → ℕ → Option Bool
  on_line l s = elim (w.lines_of s) [ none ↦ none | some ls ↦ some (member l ls) ]

  unfoldable pub in_network : ℕ → ℕ → Option Bool
  in_network n s = some (w.network_of s == n)

  -- The loop over the uses, which looks for two uses in a row of affected stations.
  unfoldable pub two_in_row : (ℕ → Option Bool) → Bool → List StationUse → Option Bool
  two_in_row affected prev [] = some false
  two_in_row affected prev (u ∷ us) = elim (affected u.use_station) [
    | none ↦ none
    | some this ↦ let rest = two_in_row affected this us in if this && prev then some true else rest
  ]

  abbrev pub visited_affected : LineChoice → List StationUse → Option Bool
  visited_affected (one_line l) us = two_in_row (on_line l) false us
  visited_affected (one_network n) us = two_in_row (in_network n) false us
  visited_affected anywhere us = some true
