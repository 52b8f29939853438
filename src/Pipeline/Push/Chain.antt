-- ===== src/Pipeline/Push/Chain.antt =====
-- The chain of a batch: every push hands the rest of its batch on (`_advance_batch_chain` of
-- app/api/v1/internal_pipeline.py).
use event_creator.Prelude.{
  ℕ, ◌≡◌, refl, ap, ◌∙◌, sym, Bool, true, false, some, List, [], ◌∷◌, ◌++◌, Option, none, ◌⊎◌, inl,
  inr, All,
}
use mathlib.Core.List.{append-nil}
use event_creator.Python.Text.{Text, lit}
use event_creator.Python.Exception.{ok}
use event_creator.Database.{RunStatus, ProcessingRun, World, BatchItem, PipelineDispatchPayload}
use event_creator.Database.Actions.{M, ◌>>◌, pure, >>=-done, get_run}
use event_creator.Pipeline.Shown.{is_terminal}
use event_creator.Pipeline.Push.{
  Deployment, enqueue_pipeline_run-done, next_payload, advance_from, advance_batch_chain, terminal,
  run_already_terminal, run_pipeline_dispatch, run_pipeline_push,
}

module _ (deployment : Deployment) where
  -- What a push adds to the queue after it has dealt with its own item.
  abbrev handed_on : PipelineDispatchPayload → List BatchItem → List PipelineDispatchPayload
  handed_on payload [] = []
  handed_on payload (item ∷ rest) = next_payload deployment payload item rest ∷ []

  advance_from-done :
      (payload : PipelineDispatchPayload) (items : List BatchItem) (w : World) {final : World}
      → advance_from deployment payload items w ≡ (ok tt, final)
      → final ≡ record w { tasks = w.tasks ++ handed_on payload items }
  unfolding advance_from
  advance_from-done payload [] w h =
      sym (ap (λ p. p.1) h) ∙ ap (λ l. record w { tasks = l }) (sym (append-nil w.tasks))
  advance_from-done payload (item ∷ rest) w h =
      enqueue_pipeline_run-done deployment (next_payload deployment payload item rest) w h

  -- The run's row says that it has succeeded or failed.
  abbrev pub HasEnded : ℕ → World → Type 0
  HasEnded run_id w =
      (r : ProcessingRun) × (get_run run_id w.db ≡ some r)
      × ((r.status ≡ RunStatus.success) ⊎ (r.status ≡ RunStatus.failed))

  -- The dispatch of the run has returned, and the push leaves what the dispatch left, with more tasks.
  abbrev pub HasRun : PipelineDispatchPayload → World → World → Type 0
  HasRun payload before after =
      (left : World) × (run_pipeline_dispatch deployment payload before ≡ (ok tt, left))
      × (after ≡ record left { tasks = after.tasks })

  -- A push for the run has returned: it found the run ended, or its dispatch of the run returned.
  pub record IsHandled (run_id : ℕ) : Type 0 where
    pub payload : PipelineDispatchPayload
    pub own : payload.item.run_id ≡ run_id
    pub before : World
    pub status : Text
    pub after : World
    pub returned : run_pipeline_push deployment payload before ≡ (ok status, after)
    pub handled : HasEnded run_id before ⊎ HasRun payload before after

  ended_status :
      (s : RunStatus) → is_terminal s ≡ true → (s ≡ RunStatus.success) ⊎ (s ≡ RunStatus.failed)
  unfolding is_terminal
  ended_status RunStatus.success h = inl refl
  ended_status RunStatus.failed h = inr refl
  ended_status RunStatus.pending h = cc
  ended_status RunStatus.in_progress h = cc

  ended_row :
      (found : Option ProcessingRun)
      → terminal deployment found ≡ true
      → (r : ProcessingRun) × (found ≡ some r)
        × ((r.status ≡ RunStatus.success) ⊎ (r.status ≡ RunStatus.failed))
  unfolding terminal
  ended_row none h = cc
  ended_row (some r) h = (r, refl, ended_status r.status h)

  -- What a push that returns has done: its own run is handled, and the next item is last in the queue.
  pub record IsPushed (payload : PipelineDispatchPayload) (w final : World) : Type 0 where
    pub own : HasEnded payload.item.run_id w ⊎ HasRun payload w final
    pub earlier : List PipelineDispatchPayload
    pub added : final.tasks ≡ earlier ++ handed_on payload payload.remaining_batch

  push-IsPushed :
      (payload : PipelineDispatchPayload) (w : World) {status : Text} {final : World}
      → run_pipeline_push deployment payload w ≡ (ok status, final)
      → IsPushed payload w final
  unfolding run_pipeline_push run_already_terminal advance_batch_chain
  push-IsPushed payload w h = after (terminal deployment (get_run payload.item.run_id w.db)) refl h
    where
      advanced :
          (s : World) (label : Text) {status : Text} {final : World}
          → (advance_batch_chain deployment payload >> pure label) s ≡ (ok status, final)
          → final ≡ record s { tasks = s.tasks ++ handed_on payload payload.remaining_batch }
      advanced s label h =
          let (u, done, rest) = >>=-done (advance_batch_chain deployment payload) _ s h in
          sym (ap (λ p. p.1) rest)
          ∙ advance_from-done payload payload.remaining_batch s
              (ap (λ r. (r, (advance_batch_chain deployment payload s).1)) done)

      after :
          (is_over : Bool) {status : Text} {final : World}
          → terminal deployment (get_run payload.item.run_id w.db) ≡ is_over
          → let rest : M Text = elim is_over [
            | true ↦ advance_batch_chain deployment payload >> pure (lit "already_terminal")
            | false ↦
                run_pipeline_dispatch deployment payload
                >> (advance_batch_chain deployment payload >> pure (lit "done"))
          ] in
            rest w ≡ (ok status, final) → IsPushed payload w final
      after true over h =
          let last = advanced w (lit "already_terminal") h in
          record {
            own = inl (ended_row (get_run payload.item.run_id w.db) over);
            earlier = w.tasks;
            added = ap (λ (v : World). v.tasks) last;
          }
      after false over h =
          let (u, done, rest) = >>=-done (run_pipeline_dispatch deployment payload) _ w h in
          let left : World = (run_pipeline_dispatch deployment payload w).1 in
          let last = advanced left (lit "done") rest in
          let tasks = ap (λ (v : World). v.tasks) last in
          record {
            own = inr (
              left,
              ap (λ r. (r, left)) done,
              last ∙ ap (λ l. record left { tasks = l }) (sym tasks),
            );
            earlier = left.tasks;
            added = tasks;
          }

  push-IsHandled :
      (payload : PipelineDispatchPayload) (w : World) {status : Text} {final : World}
      → run_pipeline_push deployment payload w ≡ (ok status, final)
      → IsHandled payload.item.run_id
  push-IsHandled payload w {status} {final} h = record {
    payload = payload;
    own = refl;
    before = w;
    status = status;
    after = final;
    returned = h;
    handled = (push-IsPushed payload w h).own;
  }

  -- The tasks that can come into the queue from one task: the task itself, and the task that a push of
  -- one of them that returned put last, in whatever state the tables were by then. A task stays in the
  -- queue: any task can be delivered any number of times, in any order, and a push may raise.
  pub data InQueue (first : PipelineDispatchPayload) : PipelineDispatchPayload → Type 0 where
    scheduled : InQueue first first
    enqueued :
        {payload : PipelineDispatchPayload} (w final : World) (status : Text) (item : BatchItem)
        (rest : List BatchItem) (earlier : List PipelineDispatchPayload)
        (task : PipelineDispatchPayload)
        → InQueue first payload
        → run_pipeline_push deployment payload w ≡ (ok status, final)
        → payload.remaining_batch ≡ item ∷ rest
        → final.tasks ≡ earlier ++ task ∷ []
        → InQueue first task

  -- The items of a task, its own first.
  abbrev pub batch_of : PipelineDispatchPayload → List BatchItem
  batch_of payload = payload.item ∷ payload.remaining_batch

  served_from :
      {first : PipelineDispatchPayload}
      → ((t : PipelineDispatchPayload)
          → InQueue first t
          → (w : World) × (status : Text) × (final : World) × (run_pipeline_push deployment t w
              ≡ (ok status, final)))
      → (rest : List BatchItem) (task : PipelineDispatchPayload) → InQueue first task
      → task.remaining_batch ≡ rest
      → All (λ i. IsHandled i.run_id) (task.item ∷ rest)
  unfolding next_payload
  served_from returns [] task q e =
      let (w, status, final, h) = returns task q in (push-IsHandled task w h, tt)
  served_from returns (item ∷ rest) task q e =
      let (w, status, final, h) = returns task q in
      let pushed = push-IsPushed task w h in
      let tasks : final.tasks ≡ pushed.earlier ++ next_payload deployment task item rest ∷ [] =
        rw e at pushed.added in
      (
        push-IsHandled task w h,
        served_from returns rest (next_payload deployment task item rest)
            (enqueued w final status item rest pushed.earlier
              (next_payload deployment task item rest) q h e tasks)
            refl,
      )

  -- Where every task in the queue has a delivery that returns, all runs of the batch are handled.
  pub batch-IsHandled :
      (first : PipelineDispatchPayload)
      → ((t : PipelineDispatchPayload)
          → InQueue first t
          → (w : World) × (status : Text) × (final : World) × (run_pipeline_push deployment t w
              ≡ (ok status, final)))
      → All (λ i. IsHandled i.run_id) (batch_of first)
  batch-IsHandled first returns = served_from returns first.remaining_batch first scheduled refl
