-- ===== src/Pipeline/Push/Tests.antt =====
-- The push endpoint at concrete deliveries.
use event_creator.Prelude.{ℕ, ◌≡◌, refl, some, [], ◌∷◌}
use event_creator.Python.Text.{lit, text_eq}
use event_creator.Python.Exception.{ok}
use event_creator.Database.{RunStatus, World, RemoteFile, BatchItem, PipelineDispatchPayload}
use event_creator.Pipeline.Dispatch.{claimable, is_pending}
use event_creator.Pipeline.Samples.{pending_run, queued, tables}
use event_creator.Pipeline.Push.{
  Storage, inline_content, in_memory, in_memory_and_file, configured_and_file, find_config,
  build_storage_and_file, failed_row, notify_failure, fail_found, fail_run_without_storage,
  mark_runs_failed_to_schedule, after_setup, run_pipeline_dispatch,
}
use event_creator.Pipeline.Push.Samples.{deployment}
use event_creator.Pipeline.Push.Unscheduled.{HaveFailed, mark_runs_failed_to_schedule-HaveFailed}
use event_creator.Pipeline.Push.Redelivery.{IsUnseen, run_pipeline_dispatch-IsUnseen}

abbrev item : ℕ → BatchItem
item run_id = record {
  run_id = run_id;
  remote_file_id = lit "f";
  remote_file_name = lit "chat.zip";
  storage_mode = lit "fake";
  inline_content_b64 = some (lit "PK");
}

abbrev second : PipelineDispatchPayload
second = record { item = item 2; user_id = 2; prompt_text = lit "p"; remaining_batch = [] }

abbrev first : PipelineDispatchPayload
first = record second { item = item 1; remaining_batch = item 2 ∷ [] }

-- The first run is over, and a worker holds the second.
abbrev busy : World
busy = record queued {
  db = record tables {
    runs =
        record pending_run { status = RunStatus.success }
        ∷ record pending_run { id = 2; status = RunStatus.in_progress }
        ∷ [];
  };
}

abbrev built : Storage × RemoteFile
built = (
  in_memory (record { id = lit "f"; name = lit "chat.zip" }) (lit "PK"),
  record { id = lit "f"; name = lit "chat.zip" },
)

run_pipeline_dispatch-IsUnseen_example :
    ((run_pipeline_dispatch deployment second busy).0 ≡ ok tt)
    × IsUnseen busy (run_pipeline_dispatch deployment second busy).1
unfolding build_storage_and_file in_memory_and_file inline_content lit text_eq claimable is_pending
run_pipeline_dispatch-IsUnseen_example =
    run_pipeline_dispatch-IsUnseen deployment second busy built refl refl

-- The first push finds its run over and hands the second item on.
abbrev handed : World
handed = record busy { tasks = second ∷ [] }

mark_runs_failed_to_schedule-HaveFailed_example :
    HaveFailed deployment
      (1 ∷ [])
      queued
      (mark_runs_failed_to_schedule deployment (1 ∷ []) 2 (lit "e") queued)
mark_runs_failed_to_schedule-HaveFailed_example =
    mark_runs_failed_to_schedule-HaveFailed deployment (1 ∷ []) 2 (lit "e") queued

-- A provider that cannot be built: the run is failed in the first step, and its user notified.
broken_storage_test :
    (run_pipeline_dispatch deployment
      (record second { item = record (item 1) { storage_mode = lit "configured" } })
      queued).1.db.steps
    ≡ failed_row deployment 10 1
        (lit "Could not start processing: storage config vanished for user f before task ran")
        100
        101
      ∷ []
unfolding run_pipeline_dispatch after_setup build_storage_and_file configured_and_file find_config
    fail_run_without_storage fail_found notify_failure failed_row lit text_eq
broken_storage_test = refl
