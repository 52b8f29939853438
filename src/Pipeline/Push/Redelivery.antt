-- ===== src/Pipeline/Push/Redelivery.antt =====
-- A task that is delivered again (app/services/pipeline/dispatch.py): what it does to a run that is no
-- longer pending.
use event_creator.Prelude.{
  ℕ, ◌+◌, ◌≡◌, refl, ap, ◌∙◌, Bool, true, false, ◌||◌, Option, none, some, ◌++◌, any, if◌then◌else◌,
}
use event_creator.Python.Text.{lit, text_eq}
use event_creator.Python.Exception.{Result, ok, err, value_error}
use event_creator.Archive.{Bytes}
use event_creator.Database.{
  Db, World, RemoteFile, StorageConfig, BatchItem, PipelineDispatchPayload,
}
use event_creator.Database.Actions.{M, ◌>>=◌, lift, gets}
use event_creator.Storage.Factory.{build_storage_provider}
use event_creator.Pipeline.Dispatch.{claimable}
use event_creator.Pipeline.Dispatch.Claim.{claim_run-none}
use event_creator.Pipeline.Push.{
  Deployment, Storage, find_config, inline_content, in_memory_and_file, connected,
  configured_and_file, build_storage_and_file, after_setup, run_claimed, run_pipeline_dispatch,
}

-- What others can see: the tables, the commits, the notifications, the moves and the queue.
pub record IsUnseen (w w' : World) : Type 0 where
  pub db : w'.db ≡ w.db
  pub committed : w'.committed ≡ w.committed
  pub notifications : w'.notifications ≡ w.notifications
  pub moves : w'.moves ≡ w.moves
  pub tasks : w'.tasks ≡ w.tasks

unseen : (w : World) → IsUnseen w w
unseen w = record { db = refl; committed = refl; notifications = refl; moves = refl; tasks = refl }

module _ (deployment : Deployment) where
  content-IsUnseen :
      (item : BatchItem) (r : Result Bytes) (f : Bytes → M (Storage × RemoteFile)) (w : World)
      → ((content : Bytes) → IsUnseen w (f content w).1)
      → IsUnseen w ((lift r >>= f) w).1
  content-IsUnseen item (ok content) f w h = h content
  content-IsUnseen item (err e) f w h = unseen w

  in_memory-IsUnseen :
      (item : BatchItem) (w : World) → IsUnseen w (in_memory_and_file deployment item w).1
  unfolding in_memory_and_file
  in_memory-IsUnseen item w =
      content-IsUnseen item (inline_content deployment item.inline_content_b64) _ w λ content.
        record { db = refl; committed = refl; notifications = refl; moves = refl; tasks = refl }

  lifted-IsUnseen :
      {A : Type 0} (r : Result A) (f : A → M (Storage × RemoteFile)) (w : World)
      → ((a : A) → IsUnseen w (f a w).1)
      → IsUnseen w ((lift r >>= f) w).1
  lifted-IsUnseen (ok a) f w h = h a
  lifted-IsUnseen (err e) f w h = unseen w

  configured-IsUnseen :
      (item : BatchItem) (user_id : ℕ) (config : Option StorageConfig) (w : World)
      → IsUnseen w (configured_and_file deployment item user_id config w).1
  unfolding configured_and_file connected
  configured-IsUnseen item user_id none w = unseen w
  configured-IsUnseen item user_id (some config) w =
      lifted-IsUnseen deployment.get_credential_cipher _ w λ decrypt.
        lifted-IsUnseen
          (build_storage_provider (some config) deployment.settings (some decrypt) false) _ w
          λ provider. unseen w

  build-IsUnseen :
      (item : BatchItem) (user_id : ℕ) (w : World)
      → IsUnseen w (build_storage_and_file deployment item user_id w).1
  unfolding build_storage_and_file
  build-IsUnseen item user_id w =
      by_mode
        (text_eq item.storage_mode (lit "ephemeral") || text_eq item.storage_mode (lit "fake"))
        (text_eq item.storage_mode (lit "configured"))
    where
      by_mode :
          (memory saved : Bool)
          → let build : M (Storage × RemoteFile) =
              (if memory
                then in_memory_and_file deployment item
                else if saved
                then gets (find_config user_id) >>= configured_and_file deployment item user_id
                else lift
                    (err (value_error (lit "unknown storage_mode: " ++ item.storage_mode)))) in
            IsUnseen w (build w).1
      by_mode true saved = in_memory-IsUnseen item w
      by_mode false true = configured-IsUnseen item user_id (find_config user_id w) w
      by_mode false false = unseen w

IsUnseen-trans : {w w' w'' : World} → IsUnseen w w' → IsUnseen w' w'' → IsUnseen w w''
IsUnseen-trans a b = record {
  db = b.db ∙ a.db;
  committed = b.committed ∙ a.committed;
  notifications = b.notifications ∙ a.notifications;
  moves = b.moves ∙ a.moves;
  tasks = b.tasks ∙ a.tasks;
}

module _ (deployment : Deployment) (payload : PipelineDispatchPayload) where
  open deployment use {collaborators}

  after_setup_unclaimed :
      (built : Storage × RemoteFile) (w : World)
      → any (claimable collaborators.clock payload.item.run_id) w.db.runs ≡ false
      → after_setup deployment payload (ok built) w ≡ (ok tt, record w { reads = w.reads + 1 })
  unfolding after_setup run_claimed
  after_setup_unclaimed built w h =
      rw (claim_run-none collaborators.clock payload.item.run_id w h) refl

  redelivered :
      (r : Result (Storage × RemoteFile)) (built : Storage × RemoteFile) (w w' : World)
      → r ≡ ok built
      → IsUnseen w w'
      → any (claimable collaborators.clock payload.item.run_id) w.db.runs ≡ false
      → ((after_setup deployment payload r w').0 ≡ ok tt)
        × IsUnseen w (after_setup deployment payload r w').1
  redelivered r built w w' e seen pending =
      let pending' : any (claimable collaborators.clock payload.item.run_id) w'.db.runs ≡ false =
        ap (λ (db : Db). any (claimable collaborators.clock payload.item.run_id) db.runs) seen.db
        ∙ pending in
      rw (e, after_setup_unclaimed built w' pending')
        (
          refl,
          IsUnseen-trans seen (record {
            db = refl;
            committed = refl;
            notifications = refl;
            moves = refl;
            tasks = refl;
          }),
        )

  -- Where the run of a delivered task is not pending (a worker holds it, or it is over) and its storage
  -- is built, `run_pipeline_dispatch` returns and changes nothing that others can see: no table, no
  -- commit, no notification, no file, no task.
  pub run_pipeline_dispatch-IsUnseen :
      (w : World) (built : Storage × RemoteFile)
      → (build_storage_and_file deployment payload.item payload.user_id w).0 ≡ ok built
      → any (claimable collaborators.clock payload.item.run_id) w.db.runs ≡ false
      → ((run_pipeline_dispatch deployment payload w).0 ≡ ok tt)
        × IsUnseen w (run_pipeline_dispatch deployment payload w).1
  unfolding run_pipeline_dispatch
  run_pipeline_dispatch-IsUnseen w built h pending =
      redelivered (build_storage_and_file deployment payload.item payload.user_id w).0 built w
        (build_storage_and_file deployment payload.item payload.user_id w).1 h
        (build-IsUnseen deployment payload.item payload.user_id w) pending
