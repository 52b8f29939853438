-- ===== src/Upload/Batch.antt =====
-- The task of a batch (`schedule_batch` of app/api/v1/upload.py).
use event_creator.Prelude.{ℕ, ◌≡◌, ◌≢◌, refl, ap, ◌∙◌, Option, List, [], ◌∷◌, ◌++◌, map}
use event_creator.Python.Text.{Text}
use event_creator.Python.Exception.{Result, ok, err}
use event_creator.Database.{World, RemoteFile, BatchItem, PipelineDispatchPayload}
use event_creator.Database.Actions.{lift, >>=-done}
use event_creator.Storage.Factory.{StorageMode}
use event_creator.Pipeline.Push.{Storage, enqueue_pipeline_run-done}
use event_creator.Upload.{
  Request, build_dispatch_payload, storage_payload_fields, batch_items, enqueue_batch,
  schedule_batch,
}

-- The runs of a task, its own first.
abbrev pub runs_of : PipelineDispatchPayload → List ℕ
runs_of task = task.item.run_id ∷ map (λ i. i.run_id) task.remaining_batch

module _ (request : Request) where
  open request use {deployment}

  batch_items-run_ids :
      (mode : StorageMode) (storage : Storage) (runs : List (ℕ × RemoteFile))
      {items : List BatchItem}
      → batch_items request mode storage runs ≡ ok items
      → map (λ i. i.run_id) items ≡ map (λ run. run.0) runs
  unfolding batch_items build_dispatch_payload
  batch_items-run_ids mode storage [] h = empty h
    where
      empty : {items : List BatchItem} → ok [] ≡ ok items → map (λ i. i.run_id) items ≡ []
      empty {items} h = let e : items ≡ [] = cc in ap (map {A = BatchItem} (λ i. i.run_id)) e
  batch_items-run_ids mode storage (run ∷ runs) h =
      joined (storage_payload_fields request mode storage run.1)
        (batch_items request mode storage runs) (λ items e. batch_items-run_ids mode storage runs e)
        h
    where
      joined :
          (fields : Result (Option Text)) (rest : Result (List BatchItem)) {items : List BatchItem}
          → ((items : List BatchItem)
              → rest ≡ ok items
              → map (λ i. i.run_id) items ≡ map (λ run. run.0) runs)
          → let all : Result (List BatchItem) = elim fields [
            | err e ↦ err e
            | ok inline_b64 ↦ elim rest [
              | err e ↦ err e
              | ok items ↦ ok (build_dispatch_payload run.0 run.1 mode inline_b64 ∷ items)
            ]
          ] in
            all ≡ ok items → map (λ i. i.run_id) items ≡ run.0 ∷ map (λ run. run.0) runs
      joined (err e) rest ih h = cc
      joined (ok inline_b64) (err e) ih h = cc
      joined (ok inline_b64) (ok more) {items} ih h =
          let e : items ≡ build_dispatch_payload run.0 run.1 mode inline_b64 ∷ more = cc in
          ap (map (λ i. i.run_id)) e ∙ ap (λ l. run.0 ∷ l) (ih more refl)

  enqueue_batch-done :
      (user_id : ℕ) (prompt_text : Text) (items : List BatchItem) (w : World) {final : World}
      → items ≢ []
      → enqueue_batch request user_id prompt_text items w ≡ (ok tt, final)
      → (task : PipelineDispatchPayload) × (final ≡ record w { tasks = w.tasks ++ task ∷ [] })
        × (runs_of task ≡ map (λ i. i.run_id) items)
        × (task.user_id ≡ user_id)
        × (task.prompt_text ≡ prompt_text)
  unfolding enqueue_batch
  enqueue_batch-done user_id prompt_text [] w some_items h = absurd (some_items refl)
  enqueue_batch-done user_id prompt_text (first ∷ rest) w some_items h = (
    record { item = first; user_id = user_id; prompt_text = prompt_text; remaining_batch = rest },
    enqueue_pipeline_run-done deployment _ w h,
    refl,
    refl,
    refl,
  )

  -- A batch that is scheduled adds one task to the queue and changes nothing else; the runs of the task
  -- and of the rest that it carries are the runs of the batch, in their order, for the user and the
  -- prompt.
  pub schedule_batch-IsQueued :
      (run : ℕ × RemoteFile) (runs : List (ℕ × RemoteFile)) (user_id : ℕ) (mode : StorageMode)
      (storage : Storage) (prompt_text : Text) (w : World) {final : World}
      → schedule_batch request (run ∷ runs) user_id mode storage prompt_text w ≡ (ok tt, final)
      → (task : PipelineDispatchPayload) × (final ≡ record w { tasks = w.tasks ++ task ∷ [] })
        × (runs_of task ≡ run.0 ∷ map (λ run. run.0) runs)
        × (task.user_id ≡ user_id)
        × (task.prompt_text ≡ prompt_text)
  unfolding schedule_batch
  schedule_batch-IsQueued run runs user_id mode storage prompt_text w h =
      let (items, built, enqueued) =
        >>=-done (lift (batch_items request mode storage (run ∷ runs))) _ w h in
      let ids = batch_items-run_ids mode storage (run ∷ runs) built in
      let (task, added, same, user, prompt) =
        enqueue_batch-done user_id prompt_text items w (nonempty items ids) enqueued in
      (task, added, same ∙ ids, user, prompt)
    where
      nonempty :
          (items : List BatchItem)
          → map (λ i. i.run_id) items ≡ run.0 ∷ map (λ run. run.0) runs
          → items ≢ []
      nonempty [] h e = cc
      nonempty (i ∷ items) h e = cc
