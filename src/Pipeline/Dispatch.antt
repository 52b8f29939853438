-- ===== src/Pipeline/Dispatch.antt =====
-- `_claim_run` of app/services/pipeline/dispatch.py.
pub mod Claim
use event_creator.Prelude.{ℕ, Bool, true, false, ◌&&◌, Option, none, some, any, ◌==◌}
use event_creator.Database.{RunStatus, ProcessingRun}
use event_creator.Database.Actions.{
  M, ◌>>=◌, ◌>>◌, pure, gets, update_db, commit, utcnow, update_where, get_run,
}

unfoldable pub is_pending : RunStatus → Bool
is_pending RunStatus.pending = true
is_pending _ = false

module _ (clock : ℕ → ℕ) (run_id : ℕ) where
  -- The condition of the `UPDATE`.
  unfoldable pub claimable : ProcessingRun → Bool
  unfolding is_pending
  claimable r = r.id == run_id && is_pending r.status

  pub started_row : ℕ → ProcessingRun → ProcessingRun
  started_row started r = record r { status = RunStatus.in_progress; started_at = some started }

  -- `UPDATE ... RETURNING id` is one atomic statement; it returns no row where none is claimable.
  unfoldable pub claim_run : M (Option ProcessingRun)
  claim_run = do
    started ← utcnow clock
    claimed ← gets (λ w. any claimable w.db.runs)
    elim claimed [
      | false ↦ pure none
      | true ↦ do
        update_db (λ db. record db { runs = update_where claimable (started_row started) db.runs })
        commit
        gets (λ w. get_run run_id w.db)
    ]
