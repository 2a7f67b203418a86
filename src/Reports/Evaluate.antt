-- ===== src/Reports/Evaluate.antt =====
-- The evaluation of the situation after each report and each expiry (compute/reports.go): the votes
-- of each line against its threshold, and the statuses that this issues.
use disturbancesmlx.Prelude.{
  ℕ, suc, ◌-◌, ◌*◌, ◌/◌, String, Bool, true, false, Option, none, some, List, [], ◌∷◌, ℤ, pos,
  negsuc, sub_ℕ, ◌+ℤ◌, leb_ℤ, length, leb, ◌==◌, if◌then◌else◌,
}
use disturbancesmlx.Clock.{Time, minute, after, before}
use disturbancesmlx.Disturbances.Model.{
  StatusMessageType, report_begin, report_confirm, report_reconfirm, report_solved, Source, Status,
  Disturbance, Db, ongoing_disturbances, last_disturbance,
}
use disturbancesmlx.Reports.Cache.{Cache}
use disturbancesmlx.Reports.Model.{ReportData, Key, count_votes, clear_votes, earliest_vote}

-- The float arithmetic of GetThresholdForLine: int(math.Round(56.8206*math.Log(n) - 18.9)), and
-- int((float32(sum)/float32(count))*multiplier).
pub record Floats : Type 1 where
  pub Multiplier : Type 0
  pub log_threshold : ℕ → ℤ
  pub scaled_mean : ℤ → ℕ → Multiplier → ℤ

-- ReportHandler: the votes, the thresholds of the last minutes of each line, and the settings.
pub record Handler (Votes Thresholds Multiplier : Type 0) : Type 0 where
  pub reports : Votes
  pub thresholds : ℕ → Thresholds
  pub multiplier : Multiplier
  pub base_offset : ℤ

abbrev pub community_source : Source
community_source = record {
  id = 0;
  name = "UnderLX user community";
  automatic = false;
  official = false;
}

abbrev pub community_status : ℕ → Time → ℕ → Bool → String → StatusMessageType → Status
community_status id time line is_downtime text msg_type = record {
  id = id;
  time = time;
  line = line;
  is_downtime = is_downtime;
  text = text;
  source = community_source;
  msg_type = msg_type;
}

unfoldable pub begin_status : ℕ → Time → ℕ → Status
begin_status id time line =
    community_status id time line true "Os utilizadores comunicaram problemas na circulação"
      report_begin

unfoldable pub confirm_status : ℕ → Time → ℕ → Status
confirm_status id time line =
    community_status id time line true "Vários utilizadores confirmaram problemas na circulação"
      report_confirm

unfoldable pub reconfirm_status : ℕ → Time → ℕ → Status
reconfirm_status id time line =
    community_status id time line true
      "Vários utilizadores confirmaram mais problemas na circulação" report_reconfirm

unfoldable pub solved_status : ℕ → Time → ℕ → Status
solved_status id time line =
    community_status id time line false "Já não existem relatos de problemas na circulação"
      report_solved

-- Go's division by 2, which rounds towards 0.
abbrev pub half : ℤ → ℤ
half (pos n) = pos (n / 2)
half (negsuc n) = sub_ℕ 0 (suc n / 2)

abbrev sum_items : List (ℕ × ℤ) → ℤ
sum_items [] = pos 0
sum_items (x ∷ xs) = x.1 +ℤ sum_items xs

-- The parameters: the two caches, the floats, the number of users in transit in a line
-- (OITInLine with approximation 0), the identifiers that uuid.NewV4 gives for the first and the
-- second status of a line, and the status reporter.
module _ (c : Cache Key ReportData) (t : Cache ℕ ℤ) (floats : Floats) (users : ℕ → ℕ)
    (new_uuid : ℕ → Bool → Option ℕ) (report : Status → Bool → Db → Db) where
  abbrev pub ReportHandler : Type 0
  ReportHandler = Handler c.Carrier t.Carrier floats.Multiplier

  -- The map of thresholds with the cache of one line replaced.
  abbrev store_thresholds : ℕ → t.Carrier → (ℕ → t.Carrier) → ℕ → t.Carrier
  store_thresholds line s all l = if l == line then s else all l

  -- r.GetThresholdForLine(line), which keeps one value for each minute of the last five.
  unfoldable pub threshold_for_line : Time → ℕ → ReportHandler → ℤ × ReportHandler
  threshold_for_line now line h =
      let value = if leb (users line) 1 then pos 15 else floats.log_threshold (users line) in
      let s = t.set_item now (now / minute) value (5 * minute) (h.thresholds line) in
      let kept = t.items now s in
      (
        h.base_offset +ℤ floats.scaled_mean (sum_items kept) (length kept) h.multiplier,
        record h { thresholds = store_thresholds line s h.thresholds },
      )

  -- r.startDisturbance(node, line)
  unfoldable pub start_disturbance : Time → ℕ → ReportHandler → Db → Db
  start_disturbance now line h db = elim (earliest_vote c now line h.reports) [
    | none ↦ db
    | some earliest ↦ elim (last_disturbance db line) [
      | none ↦ db
      | some latest ↦ elim (new_uuid line true) [
        | none ↦ db
        | some id ↦
            let time = earliest.report.time in
            if after time latest.u_end_time
            then (if before time (now - minute)
                then (let db' = report (begin_status id time line) false db in
                    elim (new_uuid line false) [
                      | none ↦ db'
                      | some id' ↦ report (confirm_status id' now line) true db'
                    ])
                else report (confirm_status id now line) true db)
            else report (reconfirm_status id now line) true db
      ]
    ]
  ]

  -- r.endDisturbance(line)
  unfoldable pub end_disturbance : Time → ℕ → Db → Db
  end_disturbance now line db = elim (new_uuid line true) [
    | none ↦ db
    | some id ↦ report (solved_status id now line) true db
  ]

  -- The loop over the ongoing disturbances of a line.
  unfoldable pub review : Time → ℕ → List Disturbance → ReportHandler → Db → ReportHandler × Db
  review now line [] h db = (h, db)
  review now line (d ∷ ds) h db =
      if d.official
      then review now line ds (record h { reports = clear_votes c now line h.reports }) db
      else (let (threshold, h') = threshold_for_line now line h in
          review now line ds h' (
            if leb_ℤ (half threshold) (pos (count_votes c now line h.reports))
            then db
            else end_disturbance now line db))

  -- One round of the loop of evaluateSituation over the lines.
  unfoldable pub evaluate_line : Time → ℕ → ReportHandler → Db → ReportHandler × Db
  evaluate_line now line h db = elim (ongoing_disturbances db line) [
    | [] ↦
        let (threshold, h') = threshold_for_line now line h in
        (
          h',
          if leb_ℤ threshold (pos (count_votes c now line h.reports))
              then start_disturbance now line h' db
              else db,
        )
    | d ∷ ds ↦ review now line (d ∷ ds) h db
  ]

  -- r.evaluateSituation()
  unfoldable pub evaluate_situation : Time → List ℕ → ReportHandler → Db → ReportHandler × Db
  evaluate_situation now [] h db = (h, db)
  evaluate_situation now (line ∷ lines) h db =
      let (h', db') = evaluate_line now line h db in evaluate_situation now lines h' db'
