-- ===== src/Upload/Created.antt =====
-- The runs that an upload or an import creates (app/api/v1/upload.py,
-- app/api/v1/import_pending_files.py), and what becomes of them.
use event_creator.Prelude.{
  ℕ, ◌+◌, ◌≡◌, refl, ap, ap₂, sym, ◌∙◌, Option, none, some, List, [], ◌∷◌, ◌++◌, map, All, ◌==◌,
}
use mathlib.Core.List.{append_assoc, append-nil}
use event_creator.Python.Text.{Text}
use event_creator.Python.Exception.{Result, ok, err}
use event_creator.Database.{
  RunStatus, ProcessingRun, UserSettings, Db, World, RemoteFile, PipelineDispatchPayload,
}
use event_creator.Database.Actions.{M, ◌>>=◌, find_where, >>=-done}
use event_creator.Storage.Factory.{Provider, storage_mode}
use event_creator.Pipeline.Push.{caught, mark_runs_failed_to_schedule}
use event_creator.UserSettings.{
  last_commit, get_user_settings, refused, insert_settings, found_or_created,
  get_or_create_user_settings, set_settings, mark_first_upload_onboarding_done,
}
use event_creator.Upload.{
  Request, add_run, add_runs, schedule_batch, prompt_text_for, scheduled, first_id, after_listing,
  import_pending_files,
}
use event_creator.Upload.Batch.{runs_of, schedule_batch-IsQueued}

-- The rows of new runs, with identifiers from `id` on; the runs of the batch with their files.
abbrev run_rows : ℕ → ℕ → ℕ → List RemoteFile → List ProcessingRun
run_rows created user_id id [] = []
run_rows created user_id id (file ∷ files) =
    record {
      id = id;
      user_id = user_id;
      filename = file.name;
      status = RunStatus.pending;
      events_extracted_count = 0;
      created_at = created;
      started_at = none;
      completed_at = none;
    }
    ∷ run_rows created user_id (id + 1) files

abbrev numbered : ℕ → List RemoteFile → List (ℕ × RemoteFile)
numbered id [] = []
numbered id (file ∷ files) = (id, file) ∷ numbered (id + 1) files

abbrev next_after : ℕ → List RemoteFile → ℕ
next_after id [] = id
next_after id (file ∷ files) = next_after (id + 1) files

abbrev with_runs : World → List ProcessingRun → ℕ → World
with_runs w rows next = record w { db = record w.db { runs = w.db.runs ++ rows }; next_id = next }

module _ (request : Request) where
  open request use {deployment, open_folder, theirs}

  add_runs_lem :
      (created user_id : ℕ) (files : List RemoteFile) (w : World)
      → add_runs request created user_id files w ≡ (
        ok (numbered w.next_id files),
        with_runs w (run_rows created user_id w.next_id files) (next_after w.next_id files),
      )
  unfolding add_runs add_run
  add_runs_lem created user_id [] w = rw (append-nil w.db.runs) refl
  add_runs_lem created user_id (file ∷ files) w =
      let first : ProcessingRun = record {
        id = w.next_id;
        user_id = user_id;
        filename = file.name;
        status = RunStatus.pending;
        events_extracted_count = 0;
        created_at = created;
        started_at = none;
        completed_at = none;
      } in
      rw
        (
          add_runs_lem created user_id files (with_runs w (first ∷ []) (w.next_id + 1)),
          append_assoc w.db.runs (first ∷ []) (run_rows created user_id (w.next_id + 1) files),
        )
        refl

-- What the settings row leaves alone.
record IsMarked (w w' : World) : Type 0 where
  runs : w'.db.runs ≡ w.db.runs
  tasks : w'.tasks ≡ w.tasks
  seen : last_commit w' ≡ w'.db

-- With no other request that creates the row, the flag is stored with whatever the session has added.
mark-IsMarked :
    (user_id : ℕ) (w : World)
    → ((mark_first_upload_onboarding_done none user_id w).0 ≡ ok tt)
      × IsMarked w (mark_first_upload_onboarding_done none user_id w).1
unfolding mark_first_upload_onboarding_done get_or_create_user_settings get_user_settings
    found_or_created insert_settings set_settings last_commit
mark-IsMarked user_id w = by_row (find_where (λ s. s.user_id == user_id) w.db.settings) refl
  where
    by_row :
        (found : Option UserSettings)
        → find_where (λ s. s.user_id == user_id) w.db.settings ≡ found
        → ((mark_first_upload_onboarding_done none user_id w).0 ≡ ok tt)
          × IsMarked w (mark_first_upload_onboarding_done none user_id w).1
    by_row none e =
        rw (e, mark_first_upload_onboarding_done)
          (refl, record { runs = refl; tasks = refl; seen = refl })
    by_row (some s) e =
        rw (e, mark_first_upload_onboarding_done)
          (refl, record { runs = refl; tasks = refl; seen = refl })

mark_alone :
    (theirs : Option UserSettings)
    → theirs ≡ none
    → (user_id : ℕ) (w : World) → IsMarked w (mark_first_upload_onboarding_done theirs user_id w).1
mark_alone none e user_id w = (mark-IsMarked user_id w).1
mark_alone (some s) e user_id w = absurd (cc)

head_of : {m n : ℕ} {ms ns : List ℕ} → m ∷ ms ≡ n ∷ ns → m ≡ n
head_of h = cc

-- Where another request has created the row, the session is back at its last commit.
mark-rolled_back :
    (theirs : UserSettings) (user_id : ℕ) (w : World) (base : Db) (earlier : List Db)
    → w.committed ≡ base ∷ earlier
    → find_where (λ s. s.user_id == user_id) w.db.settings ≡ none
    → ((mark_first_upload_onboarding_done (some theirs) user_id w).0 ≡ ok tt)
      × ((mark_first_upload_onboarding_done (some theirs) user_id w).1.db.runs ≡ base.runs)
      × ((mark_first_upload_onboarding_done (some theirs) user_id w).1.tasks ≡ w.tasks)
unfolding mark_first_upload_onboarding_done get_or_create_user_settings get_user_settings
    found_or_created insert_settings refused set_settings last_commit
mark-rolled_back theirs user_id w base earlier c e =
    rw (e, mark_first_upload_onboarding_done) (refl, rw c refl, refl)

mark_raced :
    (theirs : Option UserSettings) (row : UserSettings)
    → theirs ≡ some row
    → (user_id : ℕ) (w : World) (base : Db) (earlier : List Db) → w.committed ≡ base ∷ earlier
    → find_where (λ s. s.user_id == user_id) w.db.settings ≡ none
    → ((mark_first_upload_onboarding_done theirs user_id w).0 ≡ ok tt)
      × ((mark_first_upload_onboarding_done theirs user_id w).1.db.runs ≡ base.runs)
      × ((mark_first_upload_onboarding_done theirs user_id w).1.tasks ≡ w.tasks)
mark_raced none row e user_id w base earlier c unset = absurd (cc)
mark_raced (some s) row e user_id w base earlier c unset =
    mark-rolled_back s user_id w base earlier c unset

module _ (request : Request) where
  open request use {deployment, open_folder, theirs}
  open deployment use {collaborators, connect}

  scheduled-ok :
      (run_id user_id : ℕ) (run_ids : List ℕ) (outcome : Result (Unit {0})) (w : World) {id : ℕ}
      {final : World}
      → scheduled request run_id user_id run_ids outcome w ≡ (ok id, final)
      → (outcome ≡ ok tt) × (id ≡ run_id) × (final ≡ w)
  unfolding scheduled
  scheduled-ok run_id user_id run_ids (ok u) w {id = id} h =
      let e : id ≡ run_id = cc in (refl, e, sym (ap (λ p. p.1) h))
  scheduled-ok run_id user_id run_ids (err e) w h =
      let (_, _, raised) =
        >>=-done (mark_runs_failed_to_schedule deployment run_ids user_id _) _ w h in
      cc

  -- The session of an import when its runs are added and the flag is set.
  before_schedule : ℕ → List RemoteFile → World → World
  before_schedule user_id files w =
      (mark_first_upload_onboarding_done theirs user_id (
        with_runs (record w { reads = w.reads + 1 })
          (run_rows (collaborators.clock w.reads) user_id w.next_id files)
          (next_after w.next_id files))).1

  import_done :
      (user_id : ℕ) (provider : Provider) (file : RemoteFile) (files : List RemoteFile) (w : World)
      {run_id : ℕ} {final : World}
      → (open_folder provider).list_new_files ≡ ok (file ∷ files)
      → import_pending_files request user_id provider w ≡ (ok run_id, final)
      → (prompt_text : Text) × (schedule_batch request
            (numbered w.next_id (file ∷ files))
            user_id
            (storage_mode provider)
            (connect provider)
            prompt_text
            (before_schedule user_id (file ∷ files) w)
          ≡ (ok tt, final))
        × (run_id ≡ w.next_id)
  unfolding import_pending_files after_listing before_schedule prompt_text_for first_id
  import_done user_id provider file files w listed h =
      let h1 = rw (listed, import_pending_files) at h in
      let h2 =
        rw
          (add_runs_lem request (collaborators.clock w.reads) user_id (file ∷ files)
            (record w { reads = w.reads + 1 }))
          at h1 in
      let (_, _, rest) = >>=-done (mark_first_upload_onboarding_done theirs user_id) _ _ h2 in
      let s : World = before_schedule user_id (file ∷ files) w in
      let after : Text → M ℕ = λ text.
        caught (
          schedule_batch request (numbered w.next_id (file ∷ files)) user_id (storage_mode provider)
            (connect provider) text)
        >>= λ outcome.
            scheduled request w.next_id user_id
              (map (λ run. run.0) (numbered w.next_id (file ∷ files))) outcome in
      let (prompt_text, found, ended) = >>=-done (prompt_text_for request user_id) after s rest in
      let done : Result (Unit {0}) × World =
        schedule_batch request (numbered w.next_id (file ∷ files)) user_id (storage_mode provider)
          (connect provider) prompt_text s in
      let (outcome, same, final_eq) =
        scheduled-ok w.next_id user_id (map (λ run. run.0) (numbered w.next_id (file ∷ files)))
          done.0 done.1 ended in
      (prompt_text, ap₂ (λ r v. (r, v)) outcome (sym final_eq), same)

  numbered-rows :
      (created user_id id : ℕ) (files : List RemoteFile)
      → map (λ run. run.0) (numbered id files) ≡ map (λ r. r.id) (run_rows created user_id id files)
  numbered-rows created user_id id [] = refl
  numbered-rows created user_id id (file ∷ files) =
      ap (λ l. id ∷ l) (numbered-rows created user_id (id + 1) files)

  -- Where no other request creates the user's settings row, an import that returns has stored one
  -- pending run for each file, in their order, has committed them, has added one task to the queue
  -- whose runs are these, in this order, and returns the first of them.
  pub import_pending_files-IsQueued :
      (user_id : ℕ) (provider : Provider) (file : RemoteFile) (files : List RemoteFile) (w : World)
      {run_id : ℕ} {final : World}
      → theirs ≡ none
      → (open_folder provider).list_new_files ≡ ok (file ∷ files)
      → import_pending_files request user_id provider w ≡ (ok run_id, final)
      → (rows : List ProcessingRun) × (task : PipelineDispatchPayload) × (final.db.runs
          ≡ w.db.runs ++ rows)
        × All (λ r. r.status ≡ RunStatus.pending) rows
        × (map (λ r. r.filename) rows ≡ map (λ f. f.name) (file ∷ files))
        × (last_commit final ≡ final.db)
        × (final.tasks ≡ w.tasks ++ task ∷ [])
        × (runs_of task ≡ map (λ r. r.id) rows)
        × (run_id ≡ task.item.run_id)
  unfolding before_schedule last_commit
  import_pending_files-IsQueued user_id provider file files w {final = final} alone listed h =
      let created = collaborators.clock w.reads in
      let rows = run_rows created user_id w.next_id (file ∷ files) in
      let before : World =
        with_runs (record w { reads = w.reads + 1 }) rows (next_after w.next_id (file ∷ files)) in
      let (prompt_text, done, same) = import_done user_id provider file files w listed h in
      let (task, added, ids, _, _) =
        schedule_batch-IsQueued request (w.next_id, file) (numbered (w.next_id + 1) files) user_id
          (storage_mode provider) (connect provider) prompt_text _ done in
      let marked : IsMarked before (before_schedule user_id (file ∷ files) w) =
        mark_alone theirs alone user_id before in
      (
        rows,
        task,
        ap (λ (v : World). v.db.runs) added ∙ marked.runs,
        pending created user_id w.next_id (file ∷ files),
        names created user_id w.next_id (file ∷ files),
        ap (λ (v : World). last_commit v) added
            ∙ marked.seen
            ∙ ap (λ (v : World). v.db) (sym added),
        ap (λ (v : World). v.tasks) added
            ∙ ap (λ (l : List PipelineDispatchPayload). l ++ task ∷ []) marked.tasks,
        ids ∙ numbered-rows created user_id w.next_id (file ∷ files),
        same ∙ sym (head_of ids),
      )
    where
      pending :
          (created user_id id : ℕ) (files : List RemoteFile)
          → All (λ r. r.status ≡ RunStatus.pending) (run_rows created user_id id files)
      pending created user_id id [] = tt
      pending created user_id id (file ∷ files) = (refl, pending created user_id (id + 1) files)

      names :
          (created user_id id : ℕ) (files : List RemoteFile)
          → map (λ r. r.filename) (run_rows created user_id id files) ≡ map (λ f. f.name) files
      names created user_id id [] = refl
      names created user_id id (file ∷ files) =
          ap (λ l. file.name ∷ l) (names created user_id (id + 1) files)

  -- Where another request creates the user's settings row between the lookup and the commit, an import
  -- that returns has lost its runs: the rollback leaves the runs as the last commit had them, while the
  -- task with the new identifiers is in the queue and the first of them is the answer.
  pub import_pending_files-lost :
      (user_id : ℕ) (provider : Provider) (file : RemoteFile) (files : List RemoteFile) (w : World)
      (row : UserSettings) (base : Db) (earlier : List Db) {run_id : ℕ} {final : World}
      → theirs ≡ some row
      → w.committed ≡ base ∷ earlier
      → find_where (λ s. s.user_id == user_id) w.db.settings ≡ none
      → (open_folder provider).list_new_files ≡ ok (file ∷ files)
      → import_pending_files request user_id provider w ≡ (ok run_id, final)
      → (task : PipelineDispatchPayload) × (final.db.runs ≡ base.runs)
        × (final.tasks ≡ w.tasks ++ task ∷ [])
        × (run_id ≡ task.item.run_id)
        × (run_id ≡ w.next_id)
  unfolding before_schedule last_commit
  import_pending_files-lost user_id provider file files w row base earlier {final = final} raced
        stored unset listed h =
      let before : World =
        with_runs (record w { reads = w.reads + 1 })
          (run_rows (collaborators.clock w.reads) user_id w.next_id (file ∷ files))
          (next_after w.next_id (file ∷ files)) in
      let (prompt_text, done, same) = import_done user_id provider file files w listed h in
      let (task, added, ids, _, _) =
        schedule_batch-IsQueued request (w.next_id, file) (numbered (w.next_id + 1) files) user_id
          (storage_mode provider) (connect provider) prompt_text _ done in
      let (_, runs, tasks) = mark_raced theirs row raced user_id before base earlier stored unset in
      (
        task,
        ap (λ (v : World). v.db.runs) added ∙ runs,
        ap (λ (v : World). v.tasks) added
            ∙ ap (λ (l : List PipelineDispatchPayload). l ++ task ∷ []) tasks,
        same ∙ sym (head_of ids),
        same,
      )
