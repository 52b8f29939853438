-- ===== src/Runs/Owner.antt =====
-- Who sees a run (app/api/v1/processing_runs.py).
use event_creator.Prelude.{
  ℕ, ◌≡◌, ◌≢◌, refl, ap, Bool-cases, inl, inr, Option, none, some, ◌==◌, ==_iff,
}
use event_creator.Python.Text.{Text, lit}
use event_creator.Python.Exception.{Exception, Result, err, ◌>>=◌, http_exception}
use event_creator.Database.{ProcessingRun, Db}
use event_creator.Database.Actions.{get_run}
use event_creator.Progress.{Poll}
use event_creator.Runs.{
  processing_run_sse, Database, run_not_found, owned_run, read_processing_run,
  read_processing_run_logs, download_processing_run_logs,
}

-- The user has no run with the identifier: there is none, or it is another user's.
abbrev pub IsForeign : ℕ → ℕ → Db → Type 0
IsForeign user_id run_id db =
    (run : ProcessingRun) → get_run run_id db ≡ some run → run.user_id ≢ user_id

stopped :
    {A B : Type 0} {e : Exception} (r : Result A) (after : A → Result B)
    → r ≡ err e
    → (r >>= after) ≡ err e
stopped r after h = ap (λ q. q >>= after) h

owned_run-foreign :
    (user_id : ℕ) (found : Option ProcessingRun)
    → ((run : ProcessingRun) → found ≡ some run → run.user_id ≢ user_id)
    → owned_run user_id found ≡ err (http_exception 404 (lit "run_not_found"))
unfolding owned_run run_not_found
owned_run-foreign user_id none h = refl
owned_run-foreign user_id (some run) h = elim (Bool-cases (run.user_id == user_id)) [
  | inl e ↦ absurd (h run refl ((==_iff run.user_id user_id).0 e))
  | inr e ↦ rw (owned_run, e) refl
]

module _ (database : Database) where
  -- For a run that the user does not have, the detail, the logs, the download and the progress stream all
  -- give the same answer, whether the run exists or not.
  pub read_processing_run-IsForeign :
      (db : Db) (run_id user_id step_number page : ℕ) (search : Option Text) (polls : ℕ → ℕ → Poll)
      (fuel : ℕ)
      → IsForeign user_id run_id db
      → (read_processing_run database db run_id user_id
          ≡ err (http_exception 404 (lit "run_not_found")))
        × (read_processing_run_logs database db run_id user_id step_number page search
            ≡ err (http_exception 404 (lit "run_not_found")))
        × (download_processing_run_logs database db run_id user_id
            ≡ err (http_exception 404 (lit "run_not_found")))
        × (processing_run_sse polls db run_id user_id fuel
            ≡ err (http_exception 404 (lit "run_not_found")))
  unfolding processing_run_sse read_processing_run read_processing_run_logs
      download_processing_run_logs
  read_processing_run-IsForeign db run_id user_id step_number page search polls fuel h =
      let refused = owned_run-foreign user_id (get_run run_id db) h in
      (stopped _ _ refused, stopped _ _ refused, stopped _ _ refused, stopped _ _ refused)
