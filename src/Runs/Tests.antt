-- ===== src/Runs/Tests.antt =====
-- The API of runs at concrete inputs.
use event_creator.Prelude.{ℕ, ◌+◌, ◌≡◌, ◌≢◌, refl, none, some, [], ◌∷◌, arith}
use event_creator.Python.Text.{str_ℕ, lit, contains}
use event_creator.Python.Exception.{ok, err, value_error, overflow_error, http_exception}
use event_creator.Database.{RunStatus, StepStatus, ProcessingRun, ProcessingStep, Db}
use event_creator.Events.{Dates, parse_date_param, date_handler}
use event_creator.Pipeline.Samples.{pending_run, tables}
use event_creator.Runs.Details.{
  is_failed_step, is_failed_run, lines_of, steps_of, first_or, or_all, error_summary, total_lines,
  count_summary, summary, build_run_detail_summaries,
}
use event_creator.Progress.{Poll, stream_run_progress}
use event_creator.Runs.{
  processing_run_sse, by_date, desc, Database, Filters, get_summary, to_processing_run_read,
  to_step_read, to_step_logs, same_status, has_status, since, day_end, before, run_conditions,
  list_user_processing_runs, reads_of, is_of, read_processing_runs, run_not_found, owned_run,
  detail, read_processing_run, filter_log_lines, paginate_log_lines, found_step, log_page,
  read_processing_run_logs, download_processing_run_logs,
}
use event_creator.Runs.Pages.{log_pages, paginate_log_lines-pages}
use event_creator.Runs.Owner.{read_processing_run-IsForeign}
use event_creator.Runs.Summary.{summary-filled}

abbrev database : Database
database = record {
  order_by = λ column dir runs. runs;
  by_number = λ steps. steps;
  lower = λ t. t;
  midnight = λ day. day + day;
  one_day = 2;
}

abbrev dates : Dates
dates = record { fromisoformat = λ t. err (value_error t); repr = λ t. t }

abbrev filters : Filters
filters = record {
  run_status = some RunStatus.pending;
  date_from = none;
  date_to = none;
  sort_by = by_date;
  sort_dir = desc;
}

abbrev failed_step : ProcessingStep
failed_step = record {
  id = 1;
  run_id = 1;
  step_number = 1;
  step_name = lit "Check";
  status = StepStatus.failed;
  log_lines = lit "begin" ∷ lit "boom" ∷ [];
  started_at = none;
  completed_at = none;
}

abbrev failed_run : ProcessingRun
failed_run = record pending_run { status = RunStatus.failed }

abbrev stored : Db
stored = record tables { runs = pending_run ∷ []; steps = failed_step ∷ [] }

summary-filled_example : summary failed_run (failed_step ∷ []) ≢ []
unfolding lit
summary-filled_example = summary-filled failed_run (failed_step ∷ []) ((λ e. cc, (λ e. cc, tt)), tt)

-- Every poll finds the run finished, without steps.
abbrev polls : ℕ → ℕ → Poll
polls run_id n = record { steps = []; run = some RunStatus.success }

sse_test :
    processing_run_sse polls stored 1 2 1
    ≡ ok (
        stream_run_progress (λ n. record { steps = []; run = some RunStatus.success }) 750 300000 1)
unfolding processing_run_sse owned_run
sse_test = refl

read_processing_run-IsForeign_example :
    (read_processing_run database stored 1 3 ≡ err (http_exception 404 (lit "run_not_found")))
    × (read_processing_run_logs database stored 1 3 1 1 none
        ≡ err (http_exception 404 (lit "run_not_found")))
    × (download_processing_run_logs database stored 1 3
        ≡ err (http_exception 404 (lit "run_not_found")))
    × (processing_run_sse polls stored 1 3 4 ≡ err (http_exception 404 (lit "run_not_found")))
read_processing_run-IsForeign_example =
    read_processing_run-IsForeign database stored 1 3 1 1 none polls 4 (λ run h owner. ground arith)

list_test :
    read_processing_runs database dates stored 2 1 filters none none
    ≡ ok (record {
      runs =
          record {
            id = 1;
            filename = lit "chat.zip";
            status = RunStatus.pending;
            events_extracted_count = 0;
            created_at = 5;
            detail_summary = lit "2 log lines";
          }
          ∷ [];
      page = 1;
      total = 1;
    })
unfolding read_processing_runs parse_date_param date_handler list_user_processing_runs day_end
    run_conditions has_status same_status since before reads_of is_of build_run_detail_summaries
    get_summary to_processing_run_read steps_of summary is_failed_run count_summary str_ℕ
    total_lines lit
list_test = refl

-- A run that failed shows the first line of a step that failed.
failed_test :
    error_summary (
      record failed_step { status = StepStatus.success; log_lines = lit "a" ∷ [] }
      ∷ failed_step
      ∷ [])
    ≡ lit "begin"
unfolding error_summary lines_of first_or or_all is_failed_step lit
failed_test = refl

last_day_test :
    read_processing_runs database
      (record dates { fromisoformat = λ t. ok 3652059 })
      stored
      2
      1
      filters
      none
      (some (lit "9999-12-31"))
    ≡ err (overflow_error (lit "date value out of range"))
unfolding read_processing_runs parse_date_param date_handler list_user_processing_runs day_end lit
last_day_test = refl

logs_test :
    read_processing_run_logs database stored 1 2 1 1 (some (lit "boo"))
    ≡ ok (record {
      step_number = 1;
      step_name = lit "Check";
      log_lines = lit "boom" ∷ [];
      page = 1;
      total = 1;
    })
unfolding read_processing_run_logs owned_run found_step log_page filter_log_lines paginate_log_lines
    contains lit
logs_test = refl

no_step_test :
    read_processing_run_logs database stored 1 2 2 1 none
    ≡ err (http_exception 404 (lit "step_not_found"))
unfolding read_processing_run_logs owned_run found_step
no_step_test = refl

download_test :
    download_processing_run_logs database stored 1 2
    ≡ ok (record {
      run_id = 1;
      filename = lit "chat.zip";
      steps =
          record {
            step_number = 1;
            step_name = lit "Check";
            status = StepStatus.failed;
            log_lines = lit "begin" ∷ lit "boom" ∷ [];
          }
          ∷ [];
    })
unfolding download_processing_run_logs owned_run steps_of to_step_logs
download_test = refl

detail_test :
    read_processing_run database stored 1 2
    ≡ ok (record {
      id = 1;
      filename = lit "chat.zip";
      status = RunStatus.pending;
      events_extracted_count = 0;
      created_at = 5;
      started_at = none;
      completed_at = none;
      steps =
          record {
            step_number = 1;
            step_name = lit "Check";
            status = StepStatus.failed;
            started_at = none;
            completed_at = none;
          }
          ∷ [];
    })
unfolding read_processing_run owned_run run_not_found steps_of detail to_step_read
detail_test = refl

paginate_log_lines-pages_example :
    log_pages (filter_log_lines database failed_step.log_lines (some (lit "boo"))) 1
    ≡ filter_log_lines database failed_step.log_lines (some (lit "boo"))
unfolding paginate_log_lines filter_log_lines contains lit
paginate_log_lines-pages_example =
    paginate_log_lines-pages database failed_step.log_lines (some (lit "boo")) 1 1 (omega arith)
