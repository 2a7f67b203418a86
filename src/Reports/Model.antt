-- ===== src/Reports/Model.antt =====
-- The reports, the handler's state, the votes and the thresholds.
use disturbancesmlx.Prelude.{
  ℕ, ◌*◌, String, Bool, true, false, not, ◌&&◌, ◌||◌, Option, none, some, List, [], ◌∷◌, ltb, ◌==◌,
  if◌then◌else◌,
}
use disturbancesmlx.Clock.{Time, zero_time, minute, before, is_zero}
use disturbancesmlx.Disturbances.Model.{valid}
use disturbancesmlx.Reports.Cache.{total, Cache}

-- types.LineDisturbanceReport; `submitter` is the key of its pair, if it has one.
pub record Report : Type 0 where
  pub submitter : Option ℕ
  pub submitter_key : ℕ
  pub strong_replay_protection : Bool
  pub time : Time
  pub category : String
  pub line : ℕ

-- NewLineDisturbanceReportThroughAPI and NewLineDisturbanceReport
unfoldable pub report_through_api : Time → ℕ → ℕ → String → Report
report_through_api now key line category = record {
  submitter = some key;
  submitter_key = key;
  strong_replay_protection = true;
  time = now;
  category = category;
  line = line;
}

unfoldable pub report_from_address : Time → ℕ → ℕ → String → Report
report_from_address now address line category = record {
  submitter = none;
  submitter_key = address;
  strong_replay_protection = false;
  time = now;
  category = category;
  line = line;
}

pub record ReportData : Type 0 where
  pub report : Report
  pub weight : ℕ

-- The two parts that RateLimiterKey joins by "#".
abbrev pub Key : Type 0
Key = ℕ × ℕ

abbrev pub rate_limiter_key : Report → Key
rate_limiter_key r = (r.line, r.submitter_key)

abbrev pub key_eq : Key → Key → Bool
key_eq (a, b) (c, d) = a == c && b == d

-- What getVoteWeightForReport asks of others: the activity of the user, and the trips of the last
-- 20 minutes, if the query succeeds.
pub record Activity : Type 0 where
  pub in_line : Bool
  pub in_network : Bool
  pub recent_trips : Option ℕ

-- r.getVoteWeightForReport(report); `none` is an error.
unfoldable pub vote_weight : Report → Activity → Option ℕ
vote_weight r a =
    if not r.strong_replay_protection || not (valid r.submitter)
    then some 1
    else if a.in_line
    then some 30
    else if a.in_network
    then some 20
    else elim a.recent_trips [ none ↦ none | some n ↦ if ltb 0 n then some 10 else some 5 ]

pub data ReportError : Type 0 where
  line_closed trips_failed rate_limited : ReportError

abbrev pub rate_limit : ℕ
rate_limit = 15 * minute

module _ (c : Cache Key ReportData) where
  -- r.AddReportManually(report, weight); the evaluation that it starts is `evaluate`.
  unfoldable pub add_report_manually :
      Time → Report → ℕ → c.Carrier → c.Carrier × Option ReportError
  add_report_manually now r weight s =
      elim (c.add now (rate_limiter_key r) (record { report = r; weight = weight }) rate_limit s) [
        | none ↦ (s, some rate_limited)
        | some s' ↦ (s', none)
      ]

  -- r.HandleLineDisturbanceReport(report); `closed` is the answer of CurrentlyClosed, if it has one.
  unfoldable pub handle_report :
      Time → Option Bool → Activity → Report → c.Carrier → c.Carrier × Option ReportError
  unfolding add_report_manually
  handle_report now closed a r s =
      if elim closed [ none ↦ false | some b ↦ b ]
      then (s, some line_closed)
      else elim (vote_weight r a) [
        | none ↦ (s, some trips_failed)
        | some weight ↦ add_report_manually now r weight s
      ]

  abbrev pub votes_for : ℕ → Key × ReportData → ℕ
  votes_for line kv = if kv.1.report.line == line then kv.1.weight else 0

  -- r.CountVotesForLine(line)
  unfoldable pub count_votes : Time → ℕ → c.Carrier → ℕ
  count_votes now line s = total (votes_for line) (c.items now s)

  -- The loop of ClearVotesForLine over the items.
  unfoldable pub clear_from : ℕ → List (Key × ReportData) → c.Carrier → c.Carrier
  clear_from line [] s = s
  clear_from line (kv ∷ kvs) s =
      clear_from line kvs (if kv.1.report.line == line then c.delete kv.0 s else s)

  -- r.ClearVotesForLine(line)
  unfoldable pub clear_votes : Time → ℕ → c.Carrier → c.Carrier
  clear_votes now line s = clear_from line (c.items now s) s

  -- The loop of getEarliestVoteForLine, which never looks at the line.
  unfoldable pub earliest_from :
      Time → Option ReportData → List (Key × ReportData) → Option ReportData
  earliest_from earliest value [] = value
  earliest_from earliest value (kv ∷ kvs) =
      let newer = is_zero earliest || before kv.1.report.time earliest in
      earliest_from (if newer then kv.1.report.time else earliest)
        (if newer then some kv.1 else value) kvs

  unfoldable pub earliest_vote : Time → ℕ → c.Carrier → Option ReportData
  earliest_vote now line s = earliest_from zero_time none (c.items now s)
