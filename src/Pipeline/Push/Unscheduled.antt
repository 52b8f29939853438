-- ===== src/Pipeline/Push/Unscheduled.antt =====
-- Runs that could not be scheduled (`mark_runs_failed_to_schedule` of
-- app/services/pipeline/dispatch.py).
use event_creator.Prelude.{
  ℕ, ◌+◌, ◌≡◌, ◌≢◌, refl, sym, ◌∙◌, Bool-cases, inl, inr, Option, none, some, List, [], ◌∷◌, All,
  ◌==◌, ==_iff, arith,
}
use event_creator.Python.Text.{Text}
use event_creator.Python.Exception.{Result, ok}
use event_creator.Database.{RunStatus, ProcessingRun, World}
use event_creator.Database.Actions.{find_where, update_where, get_run}
use event_creator.Pipeline.Push.{
  Deployment, notify_failure, fail_found, fail_run_without_storage, mark_runs_failed_to_schedule,
}

module _ (f : ProcessingRun → ProcessingRun) (keeps : (r : ProcessingRun) → (f r).id ≡ r.id) where
  find-other :
      (k j : ℕ) (runs : List ProcessingRun)
      → k ≢ j
      → find_where (λ r. r.id == k) (update_where (λ r. r.id == j) f runs)
        ≡ find_where (λ r. r.id == k) runs
  find-other k j [] h = refl
  find-other k j (r ∷ runs) h = elim (Bool-cases (r.id == j)) [
    | inl e ↦ ground (arith, keeps r, find-other k j runs h)
    | inr e ↦ ground (arith, find-other k j runs h)
  ]

  find-failed :
      ((r : ProcessingRun) → (f r).status ≡ RunStatus.failed)
      → (j : ℕ) (runs : List ProcessingRun) {r' : ProcessingRun}
      → find_where (λ r. r.id == j) (update_where (λ r. r.id == j) f runs) ≡ some r'
      → r'.status ≡ RunStatus.failed
  find-failed fails j [] h = cc
  find-failed fails j (r ∷ runs) {r' = r'} h = elim (Bool-cases (r.id == j)) [
    | inl e ↦ ground (arith, keeps r, fails r)
    | inr e ↦ ground (arith, find-failed fails j runs {r' = r'})
  ]

  -- A row after an update that leaves the status alone.
  find-kept :
      ((r : ProcessingRun) → (f r).status ≡ r.status)
      → (j : ℕ) (runs : List ProcessingRun) {r' : ProcessingRun}
      → find_where (λ r. r.id == j) (update_where (λ r. r.id == j) f runs) ≡ some r'
      → (r : ProcessingRun) × (find_where (λ r. r.id == j) runs ≡ some r) × (r'.status ≡ r.status)
  find-kept kept j [] h = absurd (cc)
  find-kept kept j (r ∷ runs) {r' = r'} h = elim (Bool-cases (r.id == j)) [
    | inl e ↦ (r, ground arith, ground (arith, keeps r, kept r))
    | inr e ↦
        let (s, found, same) = find-kept kept j runs {r' = r'} (ground arith) in
        (s, ground arith, same)
  ]

-- The row of the run, if there is one, says that it has failed.
abbrev pub IsFailed : ℕ → World → Type 0
IsFailed run_id w = (r : ProcessingRun) → get_run run_id w.db ≡ some r → r.status ≡ RunStatus.failed

module _ (deployment : Deployment) where
  record HasFailed (run_id : ℕ) (w : World) (p : Result (Unit {0}) × World) : Type 0 where
    returned : p.0 ≡ ok tt
    failed : IsFailed run_id p.1
    others : (k : ℕ) → k ≢ run_id → get_run k p.1.db ≡ get_run k w.db

  fail_found-HasFailed :
      (run_id user_id : ℕ) (message : Text) (w : World) (found : Option ProcessingRun)
      → get_run run_id w.db ≡ found
      → ((r : ProcessingRun) → found ≡ some r → r.id ≡ run_id)
      → HasFailed run_id w (fail_found deployment user_id message found w)
  unfolding fail_found notify_failure
  fail_found-HasFailed run_id user_id message w none e same = record {
    returned = refl;
    failed = λ r h. cc;
    others = λ k h. refl;
  }
  fail_found-HasFailed run_id user_id message w (some run) e same =
      let j : run.id ≡ run_id = same run refl in
      let over = λ (r : ProcessingRun). record r {
        completed_at = some (deployment.collaborators.clock (w.reads + 1 + 1));
      } in
      let fails = λ (r : ProcessingRun). record r { status = RunStatus.failed } in
      record {
        returned = refl;
        failed = λ r h.
            let (s, found, status) =
              find-kept over (λ r. refl) (λ r. refl) run.id
                (update_where (λ r. r.id == run.id) fails w.db.runs) {r' = r} (rw (sym j) at h) in
            status ∙ find-failed fails (λ r. refl) (λ r. refl) run.id w.db.runs {r' = s} found;
        others = λ k h.
            let apart : k ≢ run.id = λ e. h (e ∙ j) in
            find-other over (λ r. refl) k run.id
              (update_where (λ r. r.id == run.id) fails w.db.runs) apart
            ∙ find-other fails (λ r. refl) k run.id w.db.runs apart;
      }

  find-id :
      (run_id : ℕ) (runs : List ProcessingRun) (r : ProcessingRun)
      → find_where (λ s. s.id == run_id) runs ≡ some r
      → r.id ≡ run_id
  find-id run_id [] r h = cc
  find-id run_id (s ∷ runs) r h = elim (Bool-cases (s.id == run_id)) [
    | inl e ↦ ground arith
    | inr e ↦ ground (arith, find-id run_id runs r)
  ]

  fail_run_without_storage-HasFailed :
      (run_id user_id : ℕ) (message : Text) (w : World)
      → HasFailed run_id w (fail_run_without_storage deployment run_id user_id message w)
  unfolding fail_run_without_storage
  fail_run_without_storage-HasFailed run_id user_id message w =
      fail_found-HasFailed run_id user_id message w (get_run run_id w.db) refl
        (λ r h. find-id run_id w.db.runs r h)

  keeps-IsFailed :
      (k run_id : ℕ) (w : World) (p : Result (Unit {0}) × World)
      → HasFailed run_id w p
      → IsFailed k w
      → IsFailed k p.1
  keeps-IsFailed k run_id w p done before = elim (Bool-cases (k == run_id)) [
    | inl e ↦ λ r h. done.failed r (rw ((==_iff k run_id).0 e) at h)
    | inr e ↦ λ r h. before r (sym (done.others k (λ q. ground arith)) ∙ h)
  ]

  marked_next :
      (run_id : ℕ) (run_ids : List ℕ) (user_id : ℕ) (message : Text) (w : World)
      → mark_runs_failed_to_schedule deployment (run_id ∷ run_ids) user_id message w
        ≡ mark_runs_failed_to_schedule deployment run_ids user_id message
            (fail_run_without_storage deployment run_id user_id message w).1
  unfolding mark_runs_failed_to_schedule
  marked_next run_id run_ids user_id message w =
      rw
        (
          (fail_run_without_storage-HasFailed run_id user_id message w).returned,
          mark_runs_failed_to_schedule,
        )
        refl

  marked_keeps :
      (k : ℕ) (run_ids : List ℕ) (user_id : ℕ) (message : Text) (w : World)
      → IsFailed k w
      → IsFailed k (mark_runs_failed_to_schedule deployment run_ids user_id message w).1
  unfolding mark_runs_failed_to_schedule
  marked_keeps k [] user_id message w h = h
  marked_keeps k (run_id ∷ run_ids) user_id message w h =
      rw (marked_next run_id run_ids user_id message w) (
        marked_keeps k run_ids user_id message _ (
          keeps-IsFailed k run_id w _ (fail_run_without_storage-HasFailed run_id user_id message w)
            h))

  -- The call returned, each of the runs that has a row says that it has failed, and the row of every
  -- run that is not among them is as it was.
  pub record HaveFailed (run_ids : List ℕ) (w : World) (p : Result (Unit {0}) × World)
      : Type 0 where
    pub returned : p.0 ≡ ok tt
    pub failed : All (λ id. IsFailed id p.1) run_ids
    pub others : (k : ℕ) → All (λ id. k ≢ id) run_ids → get_run k p.1.db ≡ get_run k w.db

  -- Marking runs as failed to schedule returns, leaves each of them that has a row with the status
  -- failed, and leaves the row of every other run as it was.
  pub mark_runs_failed_to_schedule-HaveFailed :
      (run_ids : List ℕ) (user_id : ℕ) (message : Text) (w : World)
      → HaveFailed run_ids w (mark_runs_failed_to_schedule deployment run_ids user_id message w)
  unfolding mark_runs_failed_to_schedule
  mark_runs_failed_to_schedule-HaveFailed [] user_id message w = record {
    returned = refl;
    failed = tt;
    others = λ k h. refl;
  }
  mark_runs_failed_to_schedule-HaveFailed (run_id ∷ run_ids) user_id message w =
      let first = fail_run_without_storage-HasFailed run_id user_id message w in
      let w' : World = (fail_run_without_storage deployment run_id user_id message w).1 in
      let later : HaveFailed run_ids w'
          (mark_runs_failed_to_schedule deployment run_ids user_id message w') =
        mark_runs_failed_to_schedule-HaveFailed run_ids user_id message w' in
      let all : HaveFailed (run_id ∷ run_ids) w
          (mark_runs_failed_to_schedule deployment run_ids user_id message w') =
        record {
          returned = later.returned;
          failed = (marked_keeps run_id run_ids user_id message w' first.failed, later.failed);
          others = λ k h. later.others k h.1 ∙ first.others k h.0;
        } in
      rw (marked_next run_id run_ids user_id message w) all
