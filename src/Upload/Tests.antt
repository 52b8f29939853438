-- ===== src/Upload/Tests.antt =====
-- Uploads and imports at concrete inputs.
use event_creator.Prelude.{ℕ, ◌≡◌, refl, false, some, none, List, [], ◌∷◌, ◌++◌, map, All}
use event_creator.Python.Text.{Text, lit, text_eq}
use event_creator.Python.Exception.{ok, err, storage_error, http_exception}
use event_creator.Archive.{sniff_archive}
use event_creator.Database.{
  RunStatus, ProcessingRun, World, RemoteFile, BatchItem, PipelineDispatchPayload,
}
use event_creator.Storage.Factory.{
  configured, without_config, storage_mode, build_storage_provider, Provider, fake, ephemeral,
  dropbox_provider,
}
use event_creator.UserSettings.{
  refused, last_commit, get_user_settings, insert_settings, found_or_created,
  get_or_create_user_settings, set_settings, mark_first_upload_onboarding_done,
}
use event_creator.Pipeline.Notify.{default_settings}
use event_creator.Pipeline.Samples.{queued, tables, pending_run}
use event_creator.Pipeline.Push.{find_config, enqueue_pipeline_run, in_memory, same_file}
use event_creator.Pipeline.Push.Samples.{deployment}
use event_creator.Upload.{
  Request, mode_text, config_is_connected, build_dispatch_payload, upload_storage_for,
  get_upload_storage, import_storage_for, get_import_storage, in_memory_upload, remote_upload,
  upload_to, encoded, storage_payload_fields, schedule, batch_items, enqueue_batch, schedule_batch,
  or_default, prompt_text_for, add_run, found_run, refresh, scheduled, storage_handler, checks,
  after_upload, upload_file, add_runs, first_id, after_listing, import_pending_files,
}
use event_creator.Upload.Batch.{runs_of}
use event_creator.Upload.Created.{import_pending_files-IsQueued, import_pending_files-lost}

abbrev file : Text → RemoteFile
file id = record { id = id; name = id }

-- A folder with two files; no other request.
abbrev request : Request
request = record {
  deployment = deployment;
  open_folder = λ p. record {
    upload = λ name content. ok (file name);
    list_new_files = ok (file (lit "a") ∷ file (lit "b") ∷ []);
  };
  factory_default_prompt = lit "p";
  theirs = none;
}

abbrev provider : Provider
provider = dropbox_provider (record {
  folder_path = [];
  access_token = none;
  refresh_token = none;
  token_expires_at = none;
  client_id = [];
  client_secret = [];
})

import_pending_files_test : (import_pending_files request 2 provider queued).0 ≡ ok 10
unfolding import_pending_files after_listing add_runs add_run mark_first_upload_onboarding_done
    get_or_create_user_settings get_user_settings found_or_created insert_settings set_settings
    prompt_text_for or_default schedule_batch batch_items storage_payload_fields
    build_dispatch_payload mode_text enqueue_batch enqueue_pipeline_run scheduled first_id
    storage_mode lit
import_pending_files_test = refl

import_pending_files-IsQueued_example :
    (rows : List ProcessingRun) × (task : PipelineDispatchPayload) × ((import_pending_files request
        2 provider queued).1.db.runs
      ≡ queued.db.runs ++ rows)
    × All (λ r. r.status ≡ RunStatus.pending) rows
    × (map (λ r. r.filename) rows ≡ lit "a" ∷ lit "b" ∷ [])
    × (last_commit (import_pending_files request 2 provider queued).1
        ≡ (import_pending_files request 2 provider queued).1.db)
    × ((import_pending_files request 2 provider queued).1.tasks ≡ queued.tasks ++ task ∷ [])
    × (runs_of task ≡ map (λ r. r.id) rows)
    × (10 ≡ task.item.run_id)
unfolding import_pending_files after_listing add_runs add_run mark_first_upload_onboarding_done
    get_or_create_user_settings get_user_settings found_or_created insert_settings set_settings
    prompt_text_for or_default schedule_batch batch_items storage_payload_fields
    build_dispatch_payload mode_text enqueue_batch enqueue_pipeline_run scheduled first_id
    storage_mode lit
import_pending_files-IsQueued_example =
    import_pending_files-IsQueued request 2 provider (file (lit "a")) (file (lit "b") ∷ []) queued
      refl refl refl

-- Another request creates the settings row.
abbrev raced : Request
raced = record request { theirs = some (default_settings 2) }

import_pending_files-lost_example :
    (task : PipelineDispatchPayload) × ((import_pending_files raced 2 provider queued).1.db.runs
      ≡ tables.runs)
    × ((import_pending_files raced 2 provider queued).1.tasks ≡ queued.tasks ++ task ∷ [])
    × (10 ≡ task.item.run_id)
    × (10 ≡ queued.next_id)
unfolding import_pending_files after_listing add_runs add_run mark_first_upload_onboarding_done
    get_or_create_user_settings get_user_settings found_or_created insert_settings refused
    last_commit set_settings prompt_text_for or_default schedule_batch batch_items
    storage_payload_fields build_dispatch_payload mode_text enqueue_batch enqueue_pipeline_run
    scheduled first_id storage_mode lit
import_pending_files-lost_example =
    import_pending_files-lost raced 2 provider (file (lit "a")) (file (lit "b") ∷ []) queued
      (default_settings 2) tables [] refl refl refl refl refl

-- An upload in the test mode puts the content into the task.
upload_file_test : (upload_file request 2 fake (lit "chat.txt") (lit "PK") queued).0 ≡ ok 11
unfolding in_memory same_file add_run mark_first_upload_onboarding_done get_or_create_user_settings
    get_user_settings found_or_created insert_settings set_settings prompt_text_for or_default
    refresh found_run schedule encoded storage_payload_fields build_dispatch_payload mode_text
    enqueue_pipeline_run scheduled storage_mode lit upload_file checks after_upload upload_to
    in_memory_upload sniff_archive text_eq
upload_file_test = refl

-- The provider refuses the upload.
refusing : Request
refusing = record request {
  open_folder = λ p. record {
    upload = λ name content. err (storage_error (lit "failed"));
    list_new_files = ok [];
  };
}

refused_upload_test :
    (upload_file refusing 2 provider (lit "chat.txt") (lit "PK") queued).0
    ≡ err (http_exception 502 (lit "storage_error"))
unfolding refusing upload_file checks after_upload upload_to remote_upload storage_handler
    sniff_archive text_eq storage_mode lit
refused_upload_test = refl

get_upload_storage_test : (get_upload_storage request 2 queued).0 ≡ ok fake
unfolding get_upload_storage upload_storage_for build_storage_provider config_is_connected
get_upload_storage_test = refl

-- Outside the test mode: an upload goes to memory, an import is refused.
live : Request
live = record request {
  deployment = record deployment {
    settings = record (deployment.settings) { e2e_test_mode = false };
  };
}

live_upload_test : (get_upload_storage live 2 queued).0 ≡ ok ephemeral
unfolding live get_upload_storage upload_storage_for build_storage_provider configured
    without_config config_is_connected find_config
live_upload_test = refl

live_import_test :
    (get_import_storage live 2 queued).0 ≡ err (http_exception 400 (lit "storage_not_connected"))
unfolding live get_import_storage import_storage_for build_storage_provider configured
    without_config config_is_connected find_config
live_import_test = refl

abbrev batch_item : ℕ → Text → BatchItem
batch_item run_id name = record {
  run_id = run_id;
  remote_file_id = name;
  remote_file_name = name;
  storage_mode = lit "configured";
  inline_content_b64 = none;
}

abbrev task : PipelineDispatchPayload
task = record {
  item = batch_item 1 (lit "a");
  user_id = 2;
  prompt_text = lit "p";
  remaining_batch = batch_item 2 (lit "b") ∷ [];
}

-- The run has ended when the task is delivered.
abbrev over : ℕ → World
over run_id = record queued {
  db = record tables { runs = record pending_run { id = run_id; status = RunStatus.success } ∷ [] };
}
