-- ===== src/Pipeline/Runner.antt =====
-- `_fail_run` and `run_pipeline` of app/services/pipeline/runner.py. The function is cut where it can
-- return: each part ends with a call of the next.
pub mod Progress
pub mod Tests
use event_creator.Prelude.{
  ℕ, ◌+◌, ◌-◌, Bool, true, false, not, ◌&&◌, ◌||◌, Option, none, some, List, [], ◌∷◌, ◌++◌, map,
  ltb, ◌==◌, if◌then◌else◌, length,
}
use event_creator.Python.Text.{Text, lit, text_eq, mem_char, str_ℕ, join, ends_with, lower}
use event_creator.Python.Date.{Date}
use event_creator.Python.Exception.{
  Exception, value_error, validation_error, archive_error, gemini_error, runtime_error, other,
  str_exception, Result, ok, err,
}
use event_creator.Archive
use event_creator.Archive.{
  Bytes, Library, Kind, zip, gzip, ChatExtraction, sniff_archive, decode_text, extract_chat_text,
}
use event_creator.DateParser.{DateLibrary, parse_earliest_date}
use event_creator.MessageFilter.{FilterResult, filter_messages_within_window}
use event_creator.Pipeline.Response.{Json, ExtractedEvent, parse_events}
use event_creator.Database.{
  RunStatus, StepStatus, ProcessingRun, ProcessingStep, Event, UserSettings, HostUser, Db,
  NotificationOutcome, PipelineNotification, RemoteFile, FileDestination, World,
}
use event_creator.Database.Actions.{
  M, ◌>>=◌, ◌>>◌, continue, pure, lift, gets, update_db, commit, utcnow, fresh_id, find_where,
  set_run, set_step, add_step, get_host_user,
}
use event_creator.Pipeline.Steps.{
  Collaborators, Job, StepName, step_file_received, step_extract, step_filter_by_date,
  step_call_gemini, step_parse_response, step_deduplicate_save, begin_step, finish_step,
}
use event_creator.Pipeline.Notify.{notify}
use event_creator.Pipeline.Save.{deduplicate_and_save}

module _ (env : Collaborators) (job : Job) where
  -- `storage.move_file(remote_file, destination)`: the call is made, and may raise.
  move_file : FileDestination → M (Unit {0})
  move_file destination w = (
    env.move_file job.remote_file destination,
    record w { moves = w.moves ++ (job.remote_file, destination) ∷ [] },
  )

  -- `run.status = status; run.completed_at = _utcnow(); commit`
  end_run : RunStatus → M (Unit {0})
  end_run status = do
    set_run job.run_id (λ r. record r { status = status })
    completed ← utcnow env.clock
    set_run job.run_id (λ r. record r { completed_at = some completed })
    commit

  pub fail_run : Text → M (Unit {0})
  fail_run message = do
    notify env job NotificationOutcome.failed 0 message
    end_run RunStatus.failed
    move_file FileDestination.failed

  -- A step that fails, and the run with it.
  abbrev fail_step : ℕ → Text → Text → M (Unit {0})
  fail_step step log_line message = do
    finish_step env job step StepStatus.failed (log_line ∷ [])
    fail_run message

  -- The end of a run that succeeds, also with no new event.
  succeed : ℕ → M (Unit {0})
  succeed new_count = do
    (if new_count == 0
        then notify env job NotificationOutcome.no_new_events 0
            (lit "Processing finished: no new events found.")
        else notify env job NotificationOutcome.success new_count
            (lit "Processing finished: " ++ (str_ℕ new_count ++ lit " new event(s) added.")))
    end_run RunStatus.success
    move_file FileDestination.processed

  save_log : ℕ → List ExtractedEvent → List Text
  save_log new_count events =
      (lit "Saved "
        ++ (str_ℕ new_count
            ++ (lit " new events; skipped "
                ++ (str_ℕ (length events - new_count) ++ lit " duplicate(s)"))))
      ∷ []

  -- Step 6.
  save : List ExtractedEvent → M (Unit {0})
  save events = do
    step ← begin_step env job step_deduplicate_save
    new_count ← deduplicate_and_save env job events
    set_run job.run_id (λ r. record r { events_extracted_count = new_count })
    finish_step env job step StepStatus.success (save_log new_count events)
    succeed new_count

  -- Step 5: `except (ValueError, ValidationError)`.
  after_parse : ℕ → Result (List ExtractedEvent) → M (Unit {0})
  after_parse step (ok events) = do
    finish_step env job step StepStatus.success
        ((lit "Parsed " ++ (str_ℕ (length events) ++ lit " events")) ∷ [])
    save events
  after_parse step (err (value_error t)) =
      fail_step step (lit "Could not parse LLM response: " ++ t)
        (lit "The AI response could not be understood. Please try again.")
  after_parse step (err (validation_error t)) =
      fail_step step (lit "Could not parse LLM response: " ++ t)
        (lit "The AI response could not be understood. Please try again.")
  after_parse step (err e) = lift (err e)

  -- Step 4: `except GeminiError`.
  after_gemini : ℕ → Result Text → M (Unit {0})
  after_gemini step (ok raw_response) = do
    finish_step env job step StepStatus.success (lit "Gemini returned a response" ∷ [])
    step ← begin_step env job step_parse_response
    after_parse step (parse_events env.json raw_response)
  after_gemini step (err (gemini_error t)) =
      fail_step step (lit "Gemini call failed: " ++ t)
        (lit "The AI extraction step failed. Please try again.")
  after_gemini step (err e) = lift (err e)

  filter_log : FilterResult → Text → Text
  filter_log filter_result conversation =
      if not filter_result.format_recognised && text_eq filter_result.text conversation
      then lit "date format not recognised — kept the full conversation history"
      else lit "Kept messages within the last "
        ++ (str_ℕ job.window_days ++ lit " days of the conversation")

  -- Step 3, which catches nothing.
  after_filter : ℕ → Text → Result FilterResult → M (Unit {0})
  after_filter step conversation (ok filter_result) = do
    finish_step env job step StepStatus.success (filter_log filter_result conversation ∷ [])
    step ← begin_step env job step_call_gemini
    after_gemini step (env.extract job.prompt_text filter_result.text)
  after_filter step conversation (err e) = lift (err e)

  filter_by_date : Text → M (Unit {0})
  filter_by_date conversation = do
    step ← begin_step env job step_filter_by_date
    after_filter step conversation (filter_messages_within_window conversation job.window_days none)

  -- Step 2, content that is no archive.
  not_archive : ℕ → Text → M (Unit {0})
  not_archive step conversation =
      if mem_char 0 conversation
      then fail_step step (lit "File is not a readable chat export (contains NUL bytes)")
          (lit "The uploaded file isn't a readable chat export.")
      else do
        finish_step env job step StepStatus.skipped (lit "Not an archive; extraction skipped" ∷ [])
        filter_by_date conversation

  extraction_note : Kind → ChatExtraction → Text
  extraction_note gzip extraction = extraction.reason
  extraction_note zip extraction =
      if not (ends_with (lit ".zip") (lower env.archive.lower_other job.filename))
      then extraction.reason ++ lit " (no .zip extension)"
      else extraction.reason

  -- Step 2, an archive: `except ArchiveError`, and any other exception.
  after_extract : ℕ → Kind → Result ChatExtraction → M (Unit {0})
  after_extract step kind (ok extraction) = do
    finish_step env job step StepStatus.success
        ((extraction_note kind extraction ++ (lit ": " ++ extraction.member_name)) ∷ [])
    filter_by_date extraction.text
  after_extract step kind (err (archive_error t)) =
      fail_step step t (lit "Could not extract a chat from the archive.")
  after_extract step kind (err e) =
      fail_step step (lit "Unexpected extraction error: " ++ str_exception e)
        (lit "Could not extract a chat from the archive.")

  extract : ℕ → Bytes → Option Kind → M (Unit {0})
  extract step content none = not_archive step (decode_text env.archive content)
  extract step content (some kind) =
      after_extract step kind (extract_chat_text env.archive content kind job.filename)

  -- Step 1: any exception fails the run.
  after_download : ℕ → Result Bytes → M (Unit {0})
  after_download step (err e) =
      fail_step step (lit "Download failed: " ++ str_exception e)
        (lit "Could not read the uploaded file.")
  after_download step (ok content) = do
    finish_step env job step StepStatus.success (
        (lit "Received "
          ++ (job.filename ++ (lit " (" ++ (str_ℕ (length content) ++ lit " bytes)"))))
        ∷ [])
    step ← begin_step env job step_extract
    extract step content (sniff_archive env.archive content)

  start_run : M (Unit {0})
  start_run = do
    set_run job.run_id (λ r. record r { status = RunStatus.in_progress })
    started ← utcnow env.clock
    set_run job.run_id (λ r. record r { started_at = some started })
    commit

  pub run_pipeline : M (Unit {0})
  run_pipeline = do
    start_run
    step ← begin_step env job step_file_received
    after_download step (env.download_file job.remote_file)
