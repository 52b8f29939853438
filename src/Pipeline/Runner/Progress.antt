-- ===== src/Pipeline/Runner/Progress.antt =====
-- `run_pipeline` of app/services/pipeline/runner.py as the progress page sees it.
use event_creator.Prelude.{
  ℕ, ◌≡◌, refl, Bool, true, false, ◌++◌, ◌∷◌, Option, none, some, List, [], ◌==◌, arith,
  if◌then◌else◌,
}
use event_creator.Python.Text.{Text, mem_char}
use event_creator.Python.Exception.{
  value_error, validation_error, archive_error, gemini_error, runtime_error, other, storage_error,
  http_exception, overflow_error, not_implemented_error, os_error, eof_error, zlib_error,
  bad_zip_file, Result, ok, err,
}
use event_creator.Archive.{
  Bytes, Kind, ChatExtraction, sniff_archive, decode_text, extract_chat_text,
}
use event_creator.MessageFilter.{FilterResult, filter_messages_within_window}
use event_creator.Pipeline.Response.{ExtractedEvent, parse_events}
use event_creator.Database.{
  RunStatus, StepStatus, ProcessingRun, World, Db, NotificationOutcome, FileDestination,
}
use event_creator.Database.Actions.{M, ◌>>◌, set_run, update_where}
use event_creator.Pipeline.Shown.{
  ended, notified, is_terminal, IsQuiet, AllSafe, IsNotified, Post, Safe, Triple, Triple-bind,
  Keeps, Ends, Ends-bind, Ends-lift, Ends-if,
}
use event_creator.Pipeline.Steps.{
  Collaborators, Job, step_file_received, step_extract, step_filter_by_date, step_call_gemini,
  step_parse_response, step_deduplicate_save,
}
use event_creator.Pipeline.Steps.Quiet.{begin_step-Keeps, finish_step-Keeps}
use event_creator.Pipeline.Notify.{notify}
use event_creator.Pipeline.Notify.Quiet.{notify-IsNotified}
use event_creator.Pipeline.Save.Quiet.{deduplicate_and_save-Keeps}
use event_creator.Pipeline.Runner.{
  move_file, end_run, fail_run, fail_step, succeed, save_log, save, after_parse, after_gemini,
  after_filter, filter_by_date, not_archive, after_extract, extract, after_download, start_run,
  run_pipeline,
}

module _ (env : Collaborators) (job : Job) where
  -- The runs table, with changes to this run that do not end it.
  ended-set :
      (f : ProcessingRun → ProcessingRun) (runs : List ProcessingRun) (db : Db)
      → ((r : ProcessingRun) → is_terminal r.status ≡ false → is_terminal (f r).status ≡ false)
      → ((r : ProcessingRun) → (f r).id ≡ r.id)
      → ended job.run_id (record db { runs = runs }) ≡ false
      → ended job.run_id (record db { runs = update_where (λ r. r.id == job.run_id) f runs })
        ≡ false
  unfolding ended
  ended-set f [] db keep same h = refl
  ended-set f (r ∷ runs) db keep same h =
      ground (arith, keep r, same r, ended-set f runs db keep same)

  ended-restart :
      (f : ProcessingRun → ProcessingRun) (runs : List ProcessingRun) (db : Db)
      → ((r : ProcessingRun) → is_terminal (f r).status ≡ false)
      → ((r : ProcessingRun) → (f r).id ≡ r.id)
      → ended job.run_id (record db { runs = update_where (λ r. r.id == job.run_id) f runs })
        ≡ false
  unfolding ended
  ended-restart f [] db keep same = refl
  ended-restart f (r ∷ runs) db keep same =
      ground (arith, keep r, same r, ended-restart f runs db keep same)

  end_run-Safe :
      (status : RunStatus)
      → Triple job.run_id (IsNotified job.run_id) (end_run env job status) (λ _. Safe job.run_id tt)
  unfolding end_run notified
  end_run-Safe status = record { at = λ w h. ((λ t. h.finished), h.quiet.safe) }

  move_file-Safe :
      (destination : FileDestination)
      → Triple job.run_id (AllSafe job.run_id) (move_file env job destination) (Safe job.run_id)
  unfolding move_file
  move_file-Safe destination = record {
    at = λ w h. moved (env.move_file job.remote_file destination) w h;
  }
    where
      moved :
          (r : Result (Unit {0})) (w : World)
          → AllSafe job.run_id w
          → Post job.run_id
              (Safe job.run_id)
              r
              (record w { moves = w.moves ++ (job.remote_file, destination) ∷ [] })
      moved (ok _) w h = h
      moved (err e) w h = h

  fail_run-Ends : (message : Text) → Ends job.run_id (fail_run env job message)
  unfolding fail_run
  fail_run-Ends message =
      Triple-bind job.run_id (λ _. IsNotified job.run_id) _ _
        (notify-IsNotified env job NotificationOutcome.failed 0 message)
        λ _.
          Triple-bind job.run_id (λ _. AllSafe job.run_id) _ _ (end_run-Safe RunStatus.failed)
            λ _. move_file-Safe FileDestination.failed

  fail_step-Ends :
      (step : ℕ) (log_line message : Text)
      → Ends job.run_id (fail_step env job step log_line message)
  fail_step-Ends step log_line message =
      Ends-bind job.run_id _ _ (finish_step-Keeps env job step StepStatus.failed (log_line ∷ []))
        λ _. fail_run-Ends message

  ending-Ends :
      (outcome : NotificationOutcome) (n : ℕ) (message : Text) (rest : M (Unit {0}))
      → Triple job.run_id (IsNotified job.run_id) rest (Safe job.run_id)
      → Ends job.run_id (notify env job outcome n message >> rest)
  ending-Ends outcome n message rest h =
      Triple-bind job.run_id (λ _. IsNotified job.run_id) _ _
        (notify-IsNotified env job outcome n message) λ _. h

  notify_either :
      (b : Bool) (m n : M (Unit {0}))
      → Triple job.run_id (IsQuiet job.run_id) m (λ _. IsNotified job.run_id)
      → Triple job.run_id (IsQuiet job.run_id) n (λ _. IsNotified job.run_id)
      → Triple job.run_id (IsQuiet job.run_id) (if b then m else n) (λ _. IsNotified job.run_id)
  notify_either true m n hm hn = hm
  notify_either false m n hm hn = hn

  succeed-Ends : (new_count : ℕ) → Ends job.run_id (succeed env job new_count)
  unfolding succeed
  succeed-Ends new_count =
      Triple-bind job.run_id (λ _. IsNotified job.run_id) _ _
        (notify_either (new_count == 0) _ _
          (notify-IsNotified env job NotificationOutcome.no_new_events 0 _)
          (notify-IsNotified env job NotificationOutcome.success new_count _))
        λ _.
          Triple-bind job.run_id (λ _. AllSafe job.run_id) _ _ (end_run-Safe RunStatus.success)
            λ _. move_file-Safe FileDestination.processed

  count-Keeps :
      (n : ℕ) → Keeps job.run_id (set_run job.run_id (λ r. record r { events_extracted_count = n }))
  count-Keeps n = record {
    at = λ w h. record {
      running = ended-set _ w.db.runs w.db (λ r e. e) (λ r. refl) (h.running);
      safe = h.safe;
    };
  }

  save-Ends : (events : List ExtractedEvent) → Ends job.run_id (save env job events)
  unfolding save
  save-Ends events =
      Ends-bind job.run_id _ _ (begin_step-Keeps env job step_deduplicate_save) λ step.
        Ends-bind job.run_id _ _ (deduplicate_and_save-Keeps env job events) λ new_count.
          Ends-bind job.run_id _ _ (count-Keeps new_count) λ _.
            Ends-bind job.run_id _ _
              (finish_step-Keeps env job step StepStatus.success
                (save_log env job new_count events))
              λ _. succeed-Ends new_count

  after_parse-Ends :
      (step : ℕ) (r : Result (List ExtractedEvent)) → Ends job.run_id (after_parse env job step r)
  unfolding after_parse
  after_parse-Ends step (ok events) =
      Ends-bind job.run_id _ _ (finish_step-Keeps env job step StepStatus.success _)
        λ _. save-Ends events
  after_parse-Ends step (err (value_error t)) = fail_step-Ends step _ _
  after_parse-Ends step (err (validation_error t)) = fail_step-Ends step _ _
  after_parse-Ends step (err (archive_error t)) = Ends-lift job.run_id (err (archive_error t))
  after_parse-Ends step (err (gemini_error t)) = Ends-lift job.run_id (err (gemini_error t))
  after_parse-Ends step (err (runtime_error t)) = Ends-lift job.run_id (err (runtime_error t))
  after_parse-Ends step (err (overflow_error t)) = Ends-lift job.run_id (err (overflow_error t))
  after_parse-Ends step (err (not_implemented_error t)) =
      Ends-lift job.run_id (err (not_implemented_error t))
  after_parse-Ends step (err (os_error t)) = Ends-lift job.run_id (err (os_error t))
  after_parse-Ends step (err (eof_error t)) = Ends-lift job.run_id (err (eof_error t))
  after_parse-Ends step (err (zlib_error t)) = Ends-lift job.run_id (err (zlib_error t))
  after_parse-Ends step (err (bad_zip_file t)) = Ends-lift job.run_id (err (bad_zip_file t))
  after_parse-Ends step (err (other t)) = Ends-lift job.run_id (err (other t))
  after_parse-Ends step (err (storage_error t)) = Ends-lift job.run_id (err (storage_error t))
  after_parse-Ends step (err (http_exception n t)) = Ends-lift job.run_id (err (http_exception n t))

  after_gemini-Ends : (step : ℕ) (r : Result Text) → Ends job.run_id (after_gemini env job step r)
  unfolding after_gemini
  after_gemini-Ends step (ok raw_response) =
      Ends-bind job.run_id _ _ (finish_step-Keeps env job step StepStatus.success _) λ _.
        Ends-bind job.run_id _ _ (begin_step-Keeps env job step_parse_response)
          λ step. after_parse-Ends step (parse_events env.json raw_response)
  after_gemini-Ends step (err (value_error t)) = Ends-lift job.run_id (err (value_error t))
  after_gemini-Ends step (err (validation_error t)) =
      Ends-lift job.run_id (err (validation_error t))
  after_gemini-Ends step (err (archive_error t)) = Ends-lift job.run_id (err (archive_error t))
  after_gemini-Ends step (err (gemini_error t)) = fail_step-Ends step _ _
  after_gemini-Ends step (err (runtime_error t)) = Ends-lift job.run_id (err (runtime_error t))
  after_gemini-Ends step (err (overflow_error t)) = Ends-lift job.run_id (err (overflow_error t))
  after_gemini-Ends step (err (not_implemented_error t)) =
      Ends-lift job.run_id (err (not_implemented_error t))
  after_gemini-Ends step (err (os_error t)) = Ends-lift job.run_id (err (os_error t))
  after_gemini-Ends step (err (eof_error t)) = Ends-lift job.run_id (err (eof_error t))
  after_gemini-Ends step (err (zlib_error t)) = Ends-lift job.run_id (err (zlib_error t))
  after_gemini-Ends step (err (bad_zip_file t)) = Ends-lift job.run_id (err (bad_zip_file t))
  after_gemini-Ends step (err (other t)) = Ends-lift job.run_id (err (other t))
  after_gemini-Ends step (err (storage_error t)) = Ends-lift job.run_id (err (storage_error t))
  after_gemini-Ends step (err (http_exception n t)) =
      Ends-lift job.run_id (err (http_exception n t))

  after_filter-Ends :
      (step : ℕ) (conversation : Text) (r : Result FilterResult)
      → Ends job.run_id (after_filter env job step conversation r)
  unfolding after_filter
  after_filter-Ends step conversation (ok filter_result) =
      Ends-bind job.run_id _ _ (finish_step-Keeps env job step StepStatus.success _) λ _.
        Ends-bind job.run_id _ _ (begin_step-Keeps env job step_call_gemini)
          λ step. after_gemini-Ends step (env.extract job.prompt_text filter_result.text)
  after_filter-Ends step conversation (err e) = Ends-lift job.run_id (err e)

  filter_by_date-Ends :
      (conversation : Text) → Ends job.run_id (filter_by_date env job conversation)
  unfolding filter_by_date
  filter_by_date-Ends conversation =
      Ends-bind job.run_id _ _ (begin_step-Keeps env job step_filter_by_date) λ step.
        after_filter-Ends step conversation
          (filter_messages_within_window conversation job.window_days none)

  not_archive-Ends :
      (step : ℕ) (conversation : Text) → Ends job.run_id (not_archive env job step conversation)
  unfolding not_archive
  not_archive-Ends step conversation =
      Ends-if job.run_id (mem_char 0 conversation) _ _ (fail_step-Ends step _ _) (
        Ends-bind job.run_id _ _ (finish_step-Keeps env job step StepStatus.skipped _)
          λ _. filter_by_date-Ends conversation)

  after_extract-Ends :
      (step : ℕ) (kind : Kind) (r : Result ChatExtraction)
      → Ends job.run_id (after_extract env job step kind r)
  unfolding after_extract
  after_extract-Ends step kind (ok extraction) =
      Ends-bind job.run_id _ _ (finish_step-Keeps env job step StepStatus.success _)
        λ _. filter_by_date-Ends extraction.text
  after_extract-Ends step kind (err (archive_error t)) = fail_step-Ends step _ _
  after_extract-Ends step kind (err (value_error t)) = fail_step-Ends step _ _
  after_extract-Ends step kind (err (validation_error t)) = fail_step-Ends step _ _
  after_extract-Ends step kind (err (gemini_error t)) = fail_step-Ends step _ _
  after_extract-Ends step kind (err (runtime_error t)) = fail_step-Ends step _ _
  after_extract-Ends step kind (err (overflow_error t)) = fail_step-Ends step _ _
  after_extract-Ends step kind (err (not_implemented_error t)) = fail_step-Ends step _ _
  after_extract-Ends step kind (err (os_error t)) = fail_step-Ends step _ _
  after_extract-Ends step kind (err (eof_error t)) = fail_step-Ends step _ _
  after_extract-Ends step kind (err (zlib_error t)) = fail_step-Ends step _ _
  after_extract-Ends step kind (err (bad_zip_file t)) = fail_step-Ends step _ _
  after_extract-Ends step kind (err (other t)) = fail_step-Ends step _ _
  after_extract-Ends step kind (err (storage_error t)) = fail_step-Ends step _ _
  after_extract-Ends step kind (err (http_exception n t)) = fail_step-Ends step _ _

  extract-Ends :
      (step : ℕ) (content : Bytes) (kind : Option Kind)
      → Ends job.run_id (extract env job step content kind)
  unfolding extract
  extract-Ends step content none = not_archive-Ends step (decode_text env.archive content)
  extract-Ends step content (some kind) =
      after_extract-Ends step kind (extract_chat_text env.archive content kind job.filename)

  after_download-Ends :
      (step : ℕ) (r : Result Bytes) → Ends job.run_id (after_download env job step r)
  unfolding after_download
  after_download-Ends step (err e) = fail_step-Ends step _ _
  after_download-Ends step (ok content) =
      Ends-bind job.run_id _ _ (finish_step-Keeps env job step StepStatus.success _) λ _.
        Ends-bind job.run_id _ _ (begin_step-Keeps env job step_extract)
          λ step. extract-Ends step content (sniff_archive env.archive content)

  start_run-Quiet :
      Triple job.run_id (AllSafe job.run_id) (start_run env job) (λ _. IsQuiet job.run_id)
  unfolding start_run is_terminal
  start_run-Quiet = record {
    at = λ w h.
        let restarted =
          ended-set (λ r. record r { started_at = some (env.clock w.reads) }) _ w.db (λ r e. e)
            (λ r. refl)
            (ended-restart (λ r. record r { status = RunStatus.in_progress }) w.db.runs w.db
              (λ r. refl) (λ r. refl)) in
        record { running = restarted; safe = ((λ t. cc restarted), h) };
  }

  run_pipeline-Safe :
      Triple job.run_id (AllSafe job.run_id) (run_pipeline env job) (Safe job.run_id)
  unfolding run_pipeline
  run_pipeline-Safe =
      Triple-bind job.run_id (λ _. IsQuiet job.run_id) _ _ start_run-Quiet
        λ _.
          Ends-bind job.run_id _ _ (begin_step-Keeps env job step_file_received)
            λ step. after_download-Ends step (env.download_file job.remote_file)

  settled :
      (r : Result (Unit {0})) (w : World)
      → Post job.run_id (Safe job.run_id) r w
      → AllSafe job.run_id w
  settled (ok _) w h = h
  settled (err e) w h = h

  -- Whatever the storage, the AI call, the archive and date libraries and the notification sender do, and
  -- whether the pipeline returns or raises: in every snapshot it commits, a run whose row says that it
  -- ended (success or failed) has the finished row of its Notify step. The condition is that this held of
  -- the snapshots committed before.
  pub run_pipeline-AllSafe :
      (w : World) → AllSafe job.run_id w → AllSafe job.run_id (run_pipeline env job w).1
  run_pipeline-AllSafe w h = settled (run_pipeline env job w).0 _ (run_pipeline-Safe.at w h)
