-- ===== src/Pipeline/Push.antt =====
-- app/services/pipeline/dispatch.py, from the push task's payload to `run_pipeline`, and the endpoint
-- of app/api/v1/internal_pipeline.py that the queue calls. `aclose` of a provider is not modelled.
pub mod Chain
pub mod Samples
pub mod Redelivery
pub mod Unscheduled
pub mod Tests
use event_creator.Prelude.{
  ◌≡◌, sym, ap, ℕ, Bool, true, false, ◌&&◌, ◌||◌, Option, none, some, List, [], ◌∷◌, ◌++◌, ◌==◌,
  if◌then◌else◌,
}
use event_creator.Python.Text.{Text, lit, text_eq, str_ℕ}
use event_creator.Python.Exception.{
  Exception, Result, ok, err, str_exception, value_error, runtime_error, other,
}
use event_creator.Archive.{Bytes}
use event_creator.Database.{
  RunStatus, StepStatus, ProcessingRun, ProcessingStep, StorageConfig, World, RemoteFile,
  FileDestination, NotificationOutcome, PipelineNotification, BatchItem, PipelineDispatchPayload,
}
use event_creator.Database.Actions.{
  M, ◌>>=◌, ◌>>◌, continue, pure, lift, gets, commit, utcnow, fresh_id, find_where, set_run,
  add_step, get_run,
}
use event_creator.Storage.Factory.{Settings, Cipher, Provider, build_storage_provider}
use event_creator.Pipeline.Shown.{is_terminal}
use event_creator.Pipeline.Steps.{Collaborators, Job}
use event_creator.Pipeline.Dispatch.{claim_run}
use event_creator.Pipeline.Runner.{run_pipeline}

-- The methods of a provider that a run uses.
pub record Storage : Type 0 where
  pub download_file : RemoteFile → Result Bytes
  pub move_file : RemoteFile → FileDestination → Result (Unit {0})

-- What the handlers of one deployment share: the collaborators of a run (but for its storage), the
-- settings, `get_credential_cipher`, the providers' methods over the network, base 64, the text of an
-- identifier, and Cloud Tasks, which may refuse a task.
pub record Deployment : Type 0 where
  pub collaborators : Collaborators
  pub settings : Settings
  pub get_credential_cipher : Result Cipher
  pub connect : Provider → Storage
  pub b64decode : Text → Result Bytes
  pub b64encode : Bytes → Text
  pub uuid_text : ℕ → Text
  pub create_task : PipelineDispatchPayload → Result (Unit {0})

-- `DEFAULT_DATE_WINDOW_DAYS`
abbrev default_date_window_days : ℕ
default_date_window_days = 7

-- The outcome of a call inside a `try`.
abbrev pub caught : {A : Type 0} → M A → M (Result A)
caught m w = let (r, w') = m w in (ok r, w')

unfoldable pub same_file : RemoteFile → RemoteFile → Bool
same_file a b = text_eq a.id b.id && text_eq a.name b.name

-- A provider that keeps its files in memory, after one upload.
unfoldable pub in_memory : RemoteFile → Bytes → Storage
unfolding same_file
in_memory file content = record {
  download_file = λ f. if same_file f file then ok content else err (other (lit "KeyError"));
  move_file = λ f destination. ok tt;
}

-- `select(StorageConfig).where(StorageConfig.user_id == user_id)`
unfoldable pub find_config : ℕ → World → Option StorageConfig
find_config user_id w = find_where (λ c. c.user_id == user_id) w.db.configs

module _ (deployment : Deployment) where
  open deployment use {
    collaborators, settings, get_credential_cipher, connect, b64decode, uuid_text, create_task,
  }

  -- `base64.b64decode(inline) if inline else b""`
  inline_content : Option Text → Result Bytes
  inline_content none = ok []
  inline_content (some []) = ok []
  inline_content (some (c ∷ t)) = b64decode (c ∷ t)

  -- The modes "ephemeral" and "fake".
  in_memory_and_file : BatchItem → M (Storage × RemoteFile)
  unfolding inline_content in_memory
  in_memory_and_file item = do
    content ← lift (inline_content item.inline_content_b64)
    id ← fresh_id
    let file : RemoteFile = record { id = uuid_text id; name = item.remote_file_name } in
        pure (in_memory file content, file)

  connected : BatchItem → StorageConfig → Cipher → M (Storage × RemoteFile)
  connected item config decrypt = do
    provider ← lift (build_storage_provider (some config) settings (some decrypt) false)
    pure (connect provider, record { id = item.remote_file_id; name = item.remote_file_name })

  configured_and_file : BatchItem → ℕ → Option StorageConfig → M (Storage × RemoteFile)
  unfolding connected
  configured_and_file item user_id none = lift (
      err (
        runtime_error (
          lit "storage config vanished for user "
          ++ (uuid_text user_id ++ lit " before task ran"))))
  configured_and_file item user_id (some config) = do
    decrypt ← lift get_credential_cipher
    connected item config decrypt

  pub build_storage_and_file : BatchItem → ℕ → M (Storage × RemoteFile)
  unfolding in_memory_and_file configured_and_file
  build_storage_and_file item user_id =
      if text_eq item.storage_mode (lit "ephemeral") || text_eq item.storage_mode (lit "fake")
      then in_memory_and_file item
      else if text_eq item.storage_mode (lit "configured")
      then gets (find_config user_id) >>= configured_and_file item user_id
      else lift (err (value_error (lit "unknown storage_mode: " ++ item.storage_mode)))

  failed_row : ℕ → ℕ → Text → ℕ → ℕ → ProcessingStep
  failed_row id run_id message started completed = record {
    id = id;
    run_id = run_id;
    step_number = 1;
    step_name = lit "File Received";
    status = StepStatus.failed;
    log_lines = message ∷ [];
    started_at = some started;
    completed_at = some completed;
  }

  -- The notification of a failure, whose exception is swallowed.
  notify_failure : ℕ → ProcessingRun → Text → M (Unit {0})
  notify_failure user_id run message w = (
    ok tt,
    record w {
      notifications =
          w.notifications
          ++ record {
            user_id = user_id;
            run_id = run.id;
            filename = run.filename;
            outcome = NotificationOutcome.failed;
            new_event_count = 0;
            message = message;
          }
            ∷ [];
    },
  )

  fail_found : ℕ → Text → Option ProcessingRun → M (Unit {0})
  unfolding failed_row notify_failure
  fail_found user_id message none = pure tt
  fail_found user_id message (some run) = do
    id ← fresh_id
    started ← utcnow collaborators.clock
    row_completed ← utcnow collaborators.clock
    add_step (failed_row id run.id message started row_completed)
    set_run run.id (λ r. record r { status = RunStatus.failed })
    completed ← utcnow collaborators.clock
    set_run run.id (λ r. record r { completed_at = some completed })
    commit
    notify_failure user_id run message

  pub fail_run_without_storage : ℕ → ℕ → Text → M (Unit {0})
  fail_run_without_storage run_id user_id message = do
    run ← gets (λ w. get_run run_id w.db)
    fail_found user_id message run

  -- `mark_runs_failed_to_schedule`
  pub mark_runs_failed_to_schedule : List ℕ → ℕ → Text → M (Unit {0})
  mark_runs_failed_to_schedule [] user_id message = pure tt
  mark_runs_failed_to_schedule (run_id ∷ run_ids) user_id message = do
    fail_run_without_storage run_id user_id message
    mark_runs_failed_to_schedule run_ids user_id message

  unfoldable pub terminal : Option ProcessingRun → Bool
  terminal none = false
  terminal (some run) = is_terminal run.status

  unfoldable pub run_already_terminal : ℕ → M Bool
  unfolding terminal
  run_already_terminal run_id = gets (λ w. terminal (get_run run_id w.db))

  -- The collaborators and the job of a claimed run.
  run_claimed : PipelineDispatchPayload → Storage × RemoteFile → Option ProcessingRun → M (Unit {0})
  run_claimed payload built none = pure tt
  run_claimed payload built (some run) =
      run_pipeline
        (record collaborators {
          download_file = built.0.download_file;
          move_file = built.0.move_file;
        })
        (record {
          run_id = run.id;
          user_id = payload.user_id;
          filename = run.filename;
          remote_file = built.1;
          prompt_text = payload.prompt_text;
          window_days = default_date_window_days;
        })

  after_setup : PipelineDispatchPayload → Result (Storage × RemoteFile) → M (Unit {0})
  after_setup payload (err e) =
      fail_run_without_storage payload.item.run_id payload.user_id
        (lit "Could not start processing: " ++ str_exception e)
  after_setup payload (ok built) = do
    run ← claim_run collaborators.clock payload.item.run_id
    run_claimed payload built run

  pub run_pipeline_dispatch : PipelineDispatchPayload → M (Unit {0})
  run_pipeline_dispatch payload = do
    built ← caught (build_storage_and_file payload.item payload.user_id)
    after_setup payload built

  -- `enqueue_pipeline_run`: a task that the queue refuses raises.
  unfoldable pub enqueue_pipeline_run : PipelineDispatchPayload → M (Unit {0})
  enqueue_pipeline_run payload w = elim (create_task payload) [
    | ok u ↦ (ok tt, record w { tasks = w.tasks ++ payload ∷ [] })
    | err e ↦ (err e, w)
  ]

  -- A task that was taken stands last in the queue, and nothing else has changed.
  pub enqueue_pipeline_run-done :
      (payload : PipelineDispatchPayload) (w : World) {u : Unit {0}} {final : World}
      → enqueue_pipeline_run payload w ≡ (ok u, final)
      → final ≡ record w { tasks = w.tasks ++ payload ∷ [] }
  unfolding enqueue_pipeline_run
  enqueue_pipeline_run-done payload w {u = u} {final = final} h = accepted (create_task payload) h
    where
      accepted :
          (r : Result (Unit {0}))
          → let sent : Result (Unit {0}) × World = elim r [
            | ok u ↦ (ok tt, record w { tasks = w.tasks ++ payload ∷ [] })
            | err e ↦ (err e, w)
          ] in
            sent ≡ (ok u, final) → final ≡ record w { tasks = w.tasks ++ payload ∷ [] }
      accepted (ok v) h = sym (ap (λ p. p.1) h)
      accepted (err e) h = cc

  -- The payload of the next item, which takes the user and the prompt over.
  unfoldable pub next_payload :
      PipelineDispatchPayload → BatchItem → List BatchItem → PipelineDispatchPayload
  next_payload payload next_item rest = record {
    item = next_item;
    user_id = payload.user_id;
    prompt_text = payload.prompt_text;
    remaining_batch = rest;
  }

  unfoldable pub advance_from : PipelineDispatchPayload → List BatchItem → M (Unit {0})
  unfolding next_payload
  advance_from payload [] = pure tt
  advance_from payload (next_item ∷ rest) =
      enqueue_pipeline_run (next_payload payload next_item rest)

  unfoldable pub advance_batch_chain : PipelineDispatchPayload → M (Unit {0})
  unfolding advance_from
  advance_batch_chain payload = advance_from payload payload.remaining_batch

  unfoldable pub run_pipeline_push : PipelineDispatchPayload → M Text
  run_pipeline_push payload = do
    is_over ← run_already_terminal payload.item.run_id
    elim is_over [
      | true ↦ do advance_batch_chain payload; pure (lit "already_terminal")
      | false ↦ do run_pipeline_dispatch payload; advance_batch_chain payload; pure (lit "done")
    ]
