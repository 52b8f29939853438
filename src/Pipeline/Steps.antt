-- ===== src/Pipeline/Steps.antt =====
-- The steps of app/services/pipeline/runner.py: their names, the collaborators of a run, and the rows
-- that `_begin_step` and `_finish_step` write.
pub mod Quiet
use event_creator.Prelude.{
  ℕ, ◌+◌, ◌-◌, Bool, true, false, not, ◌&&◌, ◌||◌, Option, none, some, List, [], ◌∷◌, ◌++◌, map,
  ltb, ◌==◌, if◌then◌else◌, length,
}
use event_creator.Python.Text.{Text, lit, text_eq, mem_char, str_ℕ, join, ends_with, lower}
use event_creator.Python.Date.{Date}
use event_creator.Python.Exception.{
  Exception, value_error, validation_error, archive_error, gemini_error, runtime_error, other,
  str_exception, Result, ok, err,
}
use event_creator.Archive
use event_creator.Archive.{
  Bytes, Library, Kind, zip, gzip, ChatExtraction, sniff_archive, decode_text, extract_chat_text,
}
use event_creator.DateParser.{DateLibrary, parse_earliest_date}
use event_creator.MessageFilter.{FilterResult, filter_messages_within_window}
use event_creator.Pipeline.Response.{Json, ExtractedEvent, parse_events}
use event_creator.Database.{
  RunStatus, StepStatus, ProcessingRun, ProcessingStep, Event, UserSettings, HostUser, Db,
  NotificationOutcome, PipelineNotification, RemoteFile, FileDestination, World,
}
use event_creator.Database.Actions.{
  M, ◌>>=◌, ◌>>◌, continue, pure, lift, gets, update_db, commit, utcnow, fresh_id, find_where,
  set_run, set_step, add_step, get_host_user,
}

-- What `run_pipeline` is given: the storage provider, the Gemini client and the notifier, and the
-- libraries that the steps call.
pub record Collaborators : Type 0 where
  pub clock : ℕ → ℕ
  pub download_file : RemoteFile → Result Bytes
  pub move_file : RemoteFile → FileDestination → Result (Unit {0})
  pub extract : Text → Text → Result Text
  pub send : PipelineNotification → Result (List Text)
  pub archive : Library
  pub dates : DateLibrary
  pub json : Json

-- The run that is processed, its file and the prompt. `_session.add` gives rows to this user.
pub record Job : Type 0 where
  pub run_id : ℕ
  pub user_id : ℕ
  pub filename : Text
  pub remote_file : RemoteFile
  pub prompt_text : Text
  pub window_days : ℕ

pub record StepName : Type 0 where
  pub number : ℕ
  pub name : Text

abbrev pub step_file_received : StepName
step_file_received = record { number = 1; name = lit "File Received" }

abbrev pub step_extract : StepName
step_extract = record { number = 2; name = lit "Extract" }

abbrev pub step_filter_by_date : StepName
step_filter_by_date = record { number = 3; name = lit "Filter by Date" }

abbrev pub step_call_gemini : StepName
step_call_gemini = record { number = 4; name = lit "Call Gemini LLM" }

abbrev pub step_parse_response : StepName
step_parse_response = record { number = 5; name = lit "Parse LLM Response" }

abbrev pub step_deduplicate_save : StepName
step_deduplicate_save = record { number = 6; name = lit "Deduplicate & Save" }

abbrev pub step_notify : StepName
step_notify = record { number = 7; name = lit "Notify" }

abbrev pub pipeline_steps : List StepName
pipeline_steps =
    step_file_received ∷ step_extract ∷ step_filter_by_date ∷ step_call_gemini ∷ step_parse_response
    ∷ step_deduplicate_save ∷ step_notify ∷ []

-- The row that `_begin_step` adds.
step_row : ℕ → ℕ → StepName → ℕ → ProcessingStep
step_row id run_id step started = record {
  id = id;
  run_id = run_id;
  step_number = step.number;
  step_name = step.name;
  status = StepStatus.in_progress;
  log_lines = [];
  started_at = some started;
  completed_at = none;
}

module _ (env : Collaborators) (job : Job) where
  open env use {clock}

  pub begin_step : StepName → M ℕ
  unfolding step_row
  begin_step step = do
    id ← fresh_id
    started ← utcnow clock
    add_step (step_row id job.run_id step started)
    commit
    pure id

  pub finish_step : ℕ → StepStatus → List Text → M (Unit {0})
  finish_step step status log_lines = do
    completed ← utcnow clock
    set_step step
        (λ s. record s { status = status; log_lines = log_lines; completed_at = some completed })
    commit
