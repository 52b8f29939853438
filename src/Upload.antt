-- ===== src/Upload.antt =====
-- app/api/v1/upload.py and app/api/v1/import_pending_files.py: a file that is uploaded, or the files
-- that wait in the watched folder, become runs and one task of the queue.
pub mod Batch
pub mod Created
pub mod Tests
use event_creator.Prelude.{
  ℕ, zero, suc, ◌+◌, Bool, true, false, ◌&&◌, ◌||◌, Option, none, some, List, [], ◌∷◌, ◌++◌, map,
  length, ltb, ◌==◌,
}
use event_creator.Python.Text.{Text, lit, mem_char}
use event_creator.Python.Exception.{
  Exception, Result, ok, err, storage_error, http_exception, other,
}
use event_creator.Archive.{Bytes, sniff_archive, decode_text}
use event_creator.Database.{
  RunStatus, ProcessingRun, StorageConfig, UserSettings, LlmPrompt, Db, World, RemoteFile,
  BatchItem, PipelineDispatchPayload,
}
use event_creator.Database.Actions.{
  M, ◌>>=◌, ◌>>◌, continue, pure, lift, gets, update_db, utcnow, fresh_id, find_where, get_run,
}
use event_creator.Storage.Factory.{
  Settings, Cipher, Provider, fake, ephemeral, build_storage_provider, StorageMode, fake_mode,
  ephemeral_mode, configured_mode, storage_mode,
}
use event_creator.Pipeline.Push.{
  Deployment, Storage, caught, find_config, in_memory, enqueue_pipeline_run,
  mark_runs_failed_to_schedule,
}
use event_creator.UserSettings.{mark_first_upload_onboarding_done}

-- `MAX_UPLOAD_BYTES`
abbrev pub max_upload_bytes : ℕ
max_upload_bytes = 10485760

-- The methods of a provider that the two handlers use, beside those of a run.
pub record WatchedFolder : Type 0 where
  pub upload : Text → Bytes → Result RemoteFile
  pub list_new_files : Result (List RemoteFile)

-- The calls of one request: the folder of each provider, the archive library's test of the content,
-- the prompt of the factory, and the settings row that another request commits meanwhile, if any.
pub record Request : Type 0 where
  pub deployment : Deployment
  pub open_folder : Provider → WatchedFolder
  pub factory_default_prompt : Text
  pub theirs : Option UserSettings

-- `RemoteFile.id` is in the task for providers that are rebuilt; the content is for the others.
pub mode_text : StorageMode → Text
mode_text fake_mode = lit "fake"
mode_text ephemeral_mode = lit "ephemeral"
mode_text configured_mode = lit "configured"

-- `config.oauth_access_token is not None`
unfoldable pub config_is_connected : Option StorageConfig → Bool
config_is_connected none = false
config_is_connected (some config) = elim config.oauth_access_token [ none ↦ false | some _ ↦ true ]

-- The scheduler's part of one file of a batch.
pub build_dispatch_payload : ℕ → RemoteFile → StorageMode → Option Text → BatchItem
unfolding mode_text
build_dispatch_payload run_id remote_file mode inline_b64 = record {
  run_id = run_id;
  remote_file_id = remote_file.id;
  remote_file_name = remote_file.name;
  storage_mode = mode_text mode;
  inline_content_b64 = inline_b64;
}

module _ (request : Request) where
  open request use {deployment, open_folder, factory_default_prompt, theirs}
  open deployment use {
    collaborators, settings, get_credential_cipher, connect, b64encode, uuid_text,
  }

  -- `get_upload_storage`, from the configuration on: its cipher is asked for only where it is used.
  upload_storage_for : Option StorageConfig → Result Provider
  unfolding config_is_connected
  upload_storage_for config = elim (config_is_connected config) [
    | false ↦ build_storage_provider none settings none true
    | true ↦ elim get_credential_cipher [
      | err e ↦ err e
      | ok decrypt ↦ build_storage_provider config settings (some decrypt) false
    ]
  ]

  pub get_upload_storage : ℕ → M Provider
  unfolding upload_storage_for
  get_upload_storage user_id = elim settings.e2e_test_mode [
    | true ↦ lift (build_storage_provider none settings none false)
    | false ↦ gets (find_config user_id) >>= λ config. lift (upload_storage_for config)
  ]

  import_storage_for : Option StorageConfig → Result Provider
  unfolding config_is_connected
  import_storage_for config = elim (config_is_connected config) [
    | false ↦ err (http_exception 400 (lit "storage_not_connected"))
    | true ↦ elim get_credential_cipher [
      | err e ↦ err e
      | ok decrypt ↦ build_storage_provider config settings (some decrypt) false
    ]
  ]

  pub get_import_storage : ℕ → M Provider
  unfolding import_storage_for
  get_import_storage user_id = elim (settings.e2e_test_mode || settings.mock_integrations) [
    | true ↦ lift (build_storage_provider none settings none false)
    | false ↦ gets (find_config user_id) >>= λ config. lift (import_storage_for config)
  ]

  -- `storage.upload_file`, with the provider as it is after it: one in memory holds the content.
  in_memory_upload : Text → Bytes → M (Storage × RemoteFile)
  in_memory_upload name content = do
    id ← fresh_id
    let file : RemoteFile = record { id = uuid_text id; name = name } in
        pure (in_memory file content, file)

  remote_upload : Provider → Text → Bytes → M (Storage × RemoteFile)
  remote_upload provider name content = do
    file ← lift ((open_folder provider).upload name content)
    pure (connect provider, file)

  pub upload_to : Provider → Text → Bytes → M (Storage × RemoteFile)
  unfolding in_memory_upload remote_upload
  upload_to fake name content = in_memory_upload name content
  upload_to ephemeral name content = in_memory_upload name content
  upload_to provider name content = remote_upload provider name content

  -- The content that goes into the task, for a provider that cannot be rebuilt.
  encoded : Result Bytes → Result (Option Text)
  encoded (ok content) = ok (some (b64encode content))
  encoded (err e) = err e

  pub storage_payload_fields : StorageMode → Storage → RemoteFile → Result (Option Text)
  unfolding encoded
  storage_payload_fields configured_mode storage remote_file = ok none
  storage_payload_fields fake_mode storage remote_file = encoded (storage.download_file remote_file)
  storage_payload_fields ephemeral_mode storage remote_file =
      encoded (storage.download_file remote_file)

  pub schedule : ℕ → ℕ → RemoteFile → StorageMode → Storage → Text → M (Unit {0})
  unfolding storage_payload_fields build_dispatch_payload
  schedule run_id user_id remote_file mode storage prompt_text = do
    inline_b64 ← lift (storage_payload_fields mode storage remote_file)
    enqueue_pipeline_run deployment (record {
      item = build_dispatch_payload run_id remote_file mode inline_b64;
      user_id = user_id;
      prompt_text = prompt_text;
      remaining_batch = [];
    })

  -- The items of a batch, in its order.
  pub batch_items : StorageMode → Storage → List (ℕ × RemoteFile) → Result (List BatchItem)
  unfolding storage_payload_fields build_dispatch_payload
  batch_items mode storage [] = ok []
  batch_items mode storage (run ∷ runs) =
      let rest = batch_items mode storage runs in
      elim (storage_payload_fields mode storage run.1) [
        | err e ↦ err e
        | ok inline_b64 ↦ elim rest [
          | err e ↦ err e
          | ok items ↦ ok (build_dispatch_payload run.0 run.1 mode inline_b64 ∷ items)
        ]
      ]

  -- `first, *rest = items`; an empty batch is not scheduled.
  enqueue_batch : ℕ → Text → List BatchItem → M (Unit {0})
  enqueue_batch user_id prompt_text [] = pure tt
  enqueue_batch user_id prompt_text (first ∷ rest) = enqueue_pipeline_run deployment (record {
    item = first;
    user_id = user_id;
    prompt_text = prompt_text;
    remaining_batch = rest;
  })

  pub schedule_batch : List (ℕ × RemoteFile) → ℕ → StorageMode → Storage → Text → M (Unit {0})
  unfolding enqueue_batch
  schedule_batch runs user_id mode storage prompt_text = do
    items ← lift (batch_items mode storage runs)
    enqueue_batch user_id prompt_text items

  or_default : Option LlmPrompt → Text
  or_default none = factory_default_prompt
  or_default (some prompt) = prompt.prompt_text

  -- `_prompt_text_for`
  pub prompt_text_for : ℕ → M Text
  unfolding or_default
  prompt_text_for user_id =
      gets λ w. or_default (find_where (λ p. p.user_id == user_id) w.db.prompts)

  -- `ProcessingRun(...)` added to the session; `created_at` is the time of the transaction.
  pub add_run : ℕ → ℕ → Text → M ℕ
  add_run created user_id filename = do
    id ← fresh_id
    update_db (λ db. record db {
      runs =
          db.runs
          ++ record {
            id = id;
            user_id = user_id;
            filename = filename;
            status = RunStatus.pending;
            events_extracted_count = 0;
            created_at = created;
            started_at = none;
            completed_at = none;
          }
            ∷ [];
    })
    pure id

  found_run : Option ProcessingRun → Result (Unit {0})
  found_run none = err (other (lit "InvalidRequestError"))
  found_run (some run) = ok tt

  -- `db.refresh(run)`, which wants the row.
  refresh : ℕ → M (Unit {0})
  unfolding found_run
  refresh run_id = gets (λ w. get_run run_id w.db) >>= λ run. lift (found_run run)

  -- The `except` around the call that schedules.
  scheduled : ℕ → ℕ → List ℕ → Result (Unit {0}) → M ℕ
  scheduled run_id user_id run_ids (ok u) = pure run_id
  scheduled run_id user_id run_ids (err e) = do
    mark_runs_failed_to_schedule deployment run_ids user_id
        (lit "Could not start processing. Please try again.")
    lift (err (http_exception 502 (lit "dispatch_error")))

  -- The `except (GoogleDriveError, DropboxError)` around a call of the provider.
  pub storage_handler : Exception → Exception
  storage_handler (storage_error message) = http_exception 502 (lit "storage_error")
  storage_handler e = e

  checks : Bytes → Result (Unit {0})
  checks content = elim (ltb max_upload_bytes (length content)) [
    | true ↦ err (http_exception 413 (lit "file_too_large"))
    | false ↦ elim (length content == 0) [
      | true ↦ err (http_exception 400 (lit "empty_file"))
      | false ↦ elim (sniff_archive collaborators.archive content) [
        | some kind ↦ ok tt
        | none ↦ elim (mem_char 0 (decode_text collaborators.archive content)) [
          | true ↦ err (http_exception 400 (lit "unsupported_file_type"))
          | false ↦ ok tt
        ]
      ]
    ]
  ]

  after_upload : ℕ → Text → StorageMode → Result (Storage × RemoteFile) → M ℕ
  unfolding storage_handler scheduled refresh
  after_upload user_id filename mode (err e) = lift (err (storage_handler e))
  after_upload user_id filename mode (ok uploaded) = do
    created ← utcnow collaborators.clock
    run_id ← add_run created user_id filename
    mark_first_upload_onboarding_done theirs user_id
    refresh run_id
    prompt_text ← prompt_text_for user_id
    outcome ← caught (schedule run_id user_id uploaded.1 mode uploaded.0 prompt_text)
    scheduled run_id user_id (run_id ∷ []) outcome

  -- The handler, for the first bytes of the body, at most one more than the limit.
  pub upload_file : ℕ → Provider → Text → Bytes → M ℕ
  unfolding checks after_upload
  upload_file user_id provider filename content = do
    lift (checks content)
    uploaded ← caught (upload_to provider filename content)
    after_upload user_id filename (storage_mode provider) uploaded

  pub add_runs : ℕ → ℕ → List RemoteFile → M (List (ℕ × RemoteFile))
  add_runs created user_id [] = pure []
  add_runs created user_id (file ∷ files) = do
    id ← add_run created user_id file.name
    runs ← add_runs created user_id files
    pure ((id, file) ∷ runs)

  first_id : List (ℕ × RemoteFile) → ℕ
  first_id [] = 0
  first_id (run ∷ runs) = run.0

  after_listing : ℕ → Provider → Result (List RemoteFile) → M ℕ
  unfolding storage_handler scheduled first_id
  after_listing user_id provider (err e) = lift (err (storage_handler e))
  after_listing user_id provider (ok []) = lift (err (http_exception 400 (lit "no_pending_files")))
  after_listing user_id provider (ok (file ∷ files)) = do
    created ← utcnow collaborators.clock
    runs ← add_runs created user_id (file ∷ files)
    mark_first_upload_onboarding_done theirs user_id
    prompt_text ← prompt_text_for user_id
    outcome ←
        caught (schedule_batch runs user_id (storage_mode provider) (connect provider) prompt_text)
    scheduled (first_id runs) user_id (map (λ run. run.0) runs) outcome

  pub import_pending_files : ℕ → Provider → M ℕ
  unfolding after_listing
  import_pending_files user_id provider =
      after_listing user_id provider (open_folder provider).list_new_files
