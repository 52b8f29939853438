-- ===== src/Pipeline/Dispatch/Claim.antt =====
-- A run is claimed once: `_claim_run` of app/services/pipeline/dispatch.py.
use event_creator.Prelude.{
  ℕ, ◌+◌, ◌≡◌, refl, inl, inr, Bool, true, false, Bool-cases, none, some, List, [], ◌∷◌, any, ◌==◌,
  arith,
}
use event_creator.Python.Exception.{ok}
use event_creator.Database.{RunStatus, ProcessingRun, World}
use event_creator.Database.Actions.{update_where, find_where, get_run}
use event_creator.Pipeline.Dispatch.{is_pending, claimable, started_row, claim_run}

-- A claim that finds no pending run only reads the clock.
pub claim_run-none :
    (clock : ℕ → ℕ) (run_id : ℕ) (w : World)
    → any (claimable clock run_id) w.db.runs ≡ false
    → claim_run clock run_id w ≡ (ok none, record w { reads = w.reads + 1 })
unfolding claim_run
claim_run-none clock run_id w h = rw h refl

module _ (clock : ℕ → ℕ) (run_id : ℕ) where
  unclaimable :
      (started : ℕ) (runs : List ProcessingRun)
      → any
          (claimable clock run_id)
          (update_where (claimable clock run_id) (started_row clock run_id started) runs)
        ≡ false
  unfolding claimable started_row is_pending
  unclaimable started [] = refl
  unclaimable started (r ∷ runs) = ground (arith, unclaimable started runs)

  any-find :
      (r : ProcessingRun) (runs : List ProcessingRun)
      → find_where (λ s. s.id == run_id) runs ≡ some r
      → r.status ≡ RunStatus.pending
      → any (claimable clock run_id) runs ≡ true
  unfolding claimable is_pending
  any-find r [] h p = cc
  any-find r (s ∷ runs) h p = elim (Bool-cases (s.id == run_id)) [
    | inl e ↦ ground (arith)
    | inr e ↦ ground (arith, any-find r runs)
  ]

  found_started :
      (started : ℕ) (r : ProcessingRun) (runs : List ProcessingRun)
      → find_where (λ s. s.id == run_id) runs ≡ some r
      → r.status ≡ RunStatus.pending
      → find_where
          (λ s. s.id == run_id)
          (update_where (claimable clock run_id) (started_row clock run_id started) runs)
        ≡ some (started_row clock run_id started r)
  unfolding claimable is_pending started_row
  found_started started r [] h p = cc
  found_started started r (s ∷ runs) h p = elim (Bool-cases (s.id == run_id)) [
    | inl e ↦ ground arith
    | inr e ↦ ground (arith, found_started started r runs)
  ]

  after_claim :
      (w : World) (b : Bool)
      → any (claimable clock run_id) w.db.runs ≡ b
      → any (claimable clock run_id) (claim_run clock run_id w).1.db.runs ≡ false
  unfolding claim_run
  after_claim w true e = rw (e, claim_run) (unclaimable (clock w.reads) w.db.runs)
  after_claim w false e = rw (e, claim_run) e

  no_claim :
      (w : World)
      → any (claimable clock run_id) w.db.runs ≡ false
      → (claim_run clock run_id w).0 ≡ ok none
  unfolding claim_run
  no_claim w e = rw (e, claim_run) refl

  -- A claim of a run that is pending returns it in progress, with the time of the claim.
  pub claim_run_pending :
      (w : World) (r : ProcessingRun)
      → get_run run_id w.db ≡ some r
      → r.status ≡ RunStatus.pending
      → (claim_run clock run_id w).0
        ≡ ok (some (record r { status = RunStatus.in_progress; started_at = some (clock w.reads) }))
  unfolding claim_run started_row
  claim_run_pending w r found pending =
      rw
        (
          any-find r w.db.runs found pending,
          claim_run,
          found_started (clock w.reads) r w.db.runs found pending,
        )
        refl

  -- Whatever the tables, a claim that follows a claim of the same run returns nothing.
  pub claim_run_twice :
      (w : World) → (claim_run clock run_id (claim_run clock run_id w).1).0 ≡ ok none
  claim_run_twice w =
      no_claim (claim_run clock run_id w).1
        (after_claim w (any (claimable clock run_id) w.db.runs) refl)
