-- ===== src/Runs.antt =====
-- app/api/v1/processing_runs.py and app/services/processing_logs.py: the runs of a user, their steps and
-- their log lines.
pub mod Schemas
pub mod Details
pub mod Summary
pub mod Owner
pub mod Pages
pub mod Tests
use event_creator.Prelude.{
  ℕ, zero, suc, ◌+◌, ◌-◌, ◌*◌, Bool, true, false, not, ◌&&◌, Option, none, some, List, [], ◌∷◌,
  ◌++◌, map, length, take, drop, filter, any, leb, ltb, ◌==◌, if◌then◌else◌,
}
use event_creator.Python.Text.{Text, lit, contains, str_ℕ}
use event_creator.Python.Date.{Date}
use event_creator.Python.Exception.{
  Exception, Result, ok, err, ◌>>=◌, http_exception, overflow_error,
}
use event_creator.Events.{Dates, parse_date_param}
use event_creator.Events.Links.{max_ordinal}
use event_creator.Progress.{
  Poll, Sent, default_poll_interval, default_max_time, stream_run_progress,
}
use event_creator.Runs.Details.{
  is_failed_step, is_failed_run, lines_of, steps_of, first_or, or_all, error_summary, total_lines,
  count_summary, summary, build_run_detail_summaries,
}
use event_creator.Runs.Schemas.{
  ProcessingRunRead, ProcessingRunListRead, ProcessingStepRead, ProcessingRunDetailRead,
  ProcessingLogLineRead, ProcessingStepLogsRead, ProcessingRunLogsDownloadRead,
}
use event_creator.Database.{RunStatus, StepStatus, ProcessingRun, ProcessingStep, Db}
use event_creator.Database.Actions.{find_where, get_run}

-- `PAGE_SIZE` and `LOG_PAGE_SIZE`
abbrev pub page_size : ℕ
page_size = 50

abbrev pub log_page_size : ℕ
log_page_size = 50

pub data SortColumn : Type 0 where
  by_date by_filename by_status : SortColumn

pub data SortDir : Type 0 where
  asc desc : SortDir

-- `ORDER BY` of the database, by a column of the runs and by the step's number; `str.lower`; the first
-- instant of a day, and the length of a day, as timestamps.
pub record Database : Type 0 where
  pub order_by : SortColumn → SortDir → List ProcessingRun → List ProcessingRun
  pub by_number : List ProcessingStep → List ProcessingStep
  pub lower : Text → Text
  pub midnight : Date → ℕ
  pub one_day : ℕ

-- The query's arguments.
pub record Filters : Type 0 where
  pub run_status : Option RunStatus
  pub date_from : Option Date
  pub date_to : Option Date
  pub sort_by : SortColumn
  pub sort_dir : SortDir

-- `summaries.get(run_id, "")`
pub get_summary : ℕ → List (ℕ × Text) → Text
get_summary run_id [] = []
get_summary run_id (entry ∷ entries) =
    let rest = get_summary run_id entries in if entry.0 == run_id then entry.1 else rest

to_processing_run_read : ProcessingRun → Text → ProcessingRunRead
to_processing_run_read run detail_summary = record {
  id = run.id;
  filename = run.filename;
  status = run.status;
  events_extracted_count = run.events_extracted_count;
  created_at = run.created_at;
  detail_summary = detail_summary;
}

to_step_read : ProcessingStep → ProcessingStepRead
to_step_read s = record {
  step_number = s.step_number;
  step_name = s.step_name;
  status = s.status;
  started_at = s.started_at;
  completed_at = s.completed_at;
}

to_step_logs : ProcessingStep → ProcessingStepLogsRead
to_step_logs s = record {
  step_number = s.step_number;
  step_name = s.step_name;
  status = s.status;
  log_lines = s.log_lines;
}

same_status : RunStatus → RunStatus → Bool
same_status RunStatus.pending RunStatus.pending = true
same_status RunStatus.in_progress RunStatus.in_progress = true
same_status RunStatus.success RunStatus.success = true
same_status RunStatus.failed RunStatus.failed = true
same_status _ _ = false

has_status : Option RunStatus → ProcessingRun → Bool
unfolding same_status
has_status none run = true
has_status (some status) run = same_status run.status status

run_not_found : {A : Type 0} → Result A
run_not_found = err (http_exception 404 (lit "run_not_found"))

-- The same answer for a run that does not exist and for another user's.
owned_run : ℕ → Option ProcessingRun → Result ProcessingRun
unfolding run_not_found
owned_run user_id none = run_not_found
owned_run user_id (some run) = elim (run.user_id == user_id) [
  | true ↦ ok run
  | false ↦ run_not_found
]

detail : ProcessingRun → List ProcessingStep → ProcessingRunDetailRead
unfolding to_step_read
detail run steps = record {
  id = run.id;
  filename = run.filename;
  status = run.status;
  events_extracted_count = run.events_extracted_count;
  created_at = run.created_at;
  started_at = run.started_at;
  completed_at = run.completed_at;
  steps = map to_step_read steps;
}

-- One page, and the number of lines on all pages.
pub paginate_log_lines : List Text → ℕ → List Text × ℕ
paginate_log_lines log_lines page =
    (take log_page_size (drop ((page - 1) * log_page_size) log_lines), length log_lines)

found_step : Option ProcessingStep → Result ProcessingStep
found_step none = err (http_exception 404 (lit "step_not_found"))
found_step (some step) = ok step

log_page : ProcessingStep → ℕ → List Text × ℕ → ProcessingLogLineRead
log_page step page paginated = record {
  step_number = step.step_number;
  step_name = step.step_name;
  log_lines = paginated.0;
  page = page;
  total = paginated.1;
}

-- The stream of the run's progress is of the run's own polls.
pub processing_run_sse : (ℕ → ℕ → Poll) → Db → ℕ → ℕ → ℕ → Result (Option (List Sent))
unfolding owned_run
processing_run_sse polls db run_id user_id fuel = do
  run ← owned_run user_id (get_run run_id db)
  ok (stream_run_progress (polls run_id) default_poll_interval default_max_time fuel)

module _ (database : Database) where
  open database use {order_by, by_number, lower, midnight, one_day}

  since : Option Date → ProcessingRun → Bool
  since none run = true
  since (some from) run = leb (midnight from) run.created_at

  -- The first instant after a day; no datetime follows the last day.
  day_end : Option Date → Result (Option ℕ)
  day_end none = ok none
  day_end (some to) = elim (leb (to + 1) max_ordinal) [
    | true ↦ ok (some (midnight to + one_day))
    | false ↦ err (overflow_error (lit "date value out of range"))
  ]

  before : Option ℕ → ProcessingRun → Bool
  before none run = true
  before (some end) run = ltb run.created_at end

  pub run_conditions : ℕ → Filters → Option ℕ → ProcessingRun → Bool
  unfolding has_status since before
  run_conditions user_id filters end run =
      run.user_id == user_id
      && (has_status filters.run_status run && (since filters.date_from run && before end run))

  pub list_user_processing_runs : Db → ℕ → ℕ → Filters → Result (List ProcessingRun × ℕ)
  unfolding day_end
  list_user_processing_runs db user_id page filters = do
    end ← day_end filters.date_to
    let kept = filter (run_conditions user_id filters end) db.runs
    ok (
      take page_size
          (drop ((page - 1) * page_size) (order_by filters.sort_by filters.sort_dir kept)),
      length kept,
    )

  reads_of : List ProcessingRun → List (ℕ × Text) → List ProcessingRunRead
  unfolding get_summary to_processing_run_read
  reads_of runs summaries =
      map (λ run. to_processing_run_read run (get_summary run.id summaries)) runs

  -- `where(run_id.in_(...))`
  is_of : List ProcessingRun → ProcessingStep → Bool
  is_of runs step = any (λ run. run.id == step.run_id) runs

  -- The two dates are read from the query.
  pub read_processing_runs :
      Dates → Db → ℕ → ℕ → Filters → Option Text → Option Text → Result ProcessingRunListRead
  unfolding reads_of is_of
  read_processing_runs dates db user_id page filters date_from date_to = do
    from ← parse_date_param dates date_from
    to ← parse_date_param dates date_to
    listed ←
        list_user_processing_runs db user_id page
          (record filters { date_from = from; date_to = to })
    let summaries =
        build_run_detail_summaries listed.0 (by_number (filter (is_of listed.0) db.steps))
    ok (record { runs = reads_of listed.0 summaries; page = page; total = listed.1 })

  pub read_processing_run : Db → ℕ → ℕ → Result ProcessingRunDetailRead
  unfolding owned_run steps_of detail
  read_processing_run db run_id user_id = do
    run ← owned_run user_id (get_run run_id db)
    ok (detail run (by_number (steps_of run_id db.steps)))

  -- The search text is taken as it is, without its case.
  pub filter_log_lines : List Text → Option Text → List Text
  filter_log_lines log_lines none = log_lines
  filter_log_lines log_lines (some []) = log_lines
  filter_log_lines log_lines (some (c ∷ t)) =
      filter (λ line. contains (lower (c ∷ t)) (lower line)) log_lines

  pub read_processing_run_logs : Db → ℕ → ℕ → ℕ → ℕ → Option Text → Result ProcessingLogLineRead
  unfolding owned_run found_step log_page
  read_processing_run_logs db run_id user_id step_number page search = do
    run ← owned_run user_id (get_run run_id db)
    step ←
        found_step (find_where (λ s. s.run_id == run_id && s.step_number == step_number) db.steps)
    ok (log_page step page (paginate_log_lines (filter_log_lines step.log_lines search) page))

  pub download_processing_run_logs : Db → ℕ → ℕ → Result ProcessingRunLogsDownloadRead
  unfolding owned_run steps_of to_step_logs
  download_processing_run_logs db run_id user_id = do
    run ← owned_run user_id (get_run run_id db)
    ok (record {
      run_id = run.id;
      filename = run.filename;
      steps = map to_step_logs (by_number (steps_of run_id db.steps));
    })
