-- ===== src/Pipeline/Tests.antt =====
-- A run of the pipeline with concrete collaborators, and the properties of
-- app/services/pipeline/runner.py at concrete inputs.
use event_creator.Prelude.{◌≡◌, false, refl, some, none, List, [], ◌∷◌, map, any, length}
use event_creator.Python.Text.{Text, strip, split}
use event_creator.Python.Exception.{ok}
use event_creator.DateParser.{earliest_of, parse_earliest_date}
use event_creator.Pipeline.Response.{ExtractedEvent}
use event_creator.Pipeline.Shown.{ended, is_terminal, AllSafe}
use event_creator.Pipeline.Save.{deduplicate_and_save}
use event_creator.Pipeline.Save.Table.{IsSaved, row_of, with_events, deduplicate_and_save-IsSaved}
use event_creator.Pipeline.Runner.{run_pipeline}
use event_creator.Pipeline.Runner.Progress.{run_pipeline-AllSafe}
use event_creator.Database.{RunStatus}
use event_creator.Pipeline.Dispatch.{claim_run}
use event_creator.Pipeline.Dispatch.Claim.{claim_run_pending, claim_run_twice}
use event_creator.Pipeline.Samples.{lunch, undated, helpers, job, pending_run, queued}

queued-AllSafe : AllSafe job.run_id queued
unfolding ended is_terminal
queued-AllSafe = ((λ t. cc), tt)

run_pipeline-AllSafe_example : AllSafe job.run_id (run_pipeline helpers job queued).1
run_pipeline-AllSafe_example = run_pipeline-AllSafe helpers job queued queued-AllSafe

no_digits : (t : Text) → any (λ c. false) t ≡ false
no_digits [] = refl
no_digits (c ∷ t) = no_digits t

undated_fragments : (fragments : List Text) → earliest_of undated none fragments ≡ ok none
unfolding earliest_of
undated_fragments [] = refl
undated_fragments (t ∷ fragments) =
    rw (earliest_of, no_digits (strip t)) (undated_fragments fragments)

undated_parses : (t : Text) → parse_earliest_date undated t ≡ ok none
unfolding parse_earliest_date
undated_parses t = undated_fragments (split 0x2C t)

deduplicate_and_save-IsSaved_example :
    (picked : List ExtractedEvent) × (deduplicate_and_save helpers job (lunch ∷ lunch ∷ []) queued
      ≡ (
        ok (length picked),
        with_events queued (map (row_of helpers job (λ t. none) undated_parses) picked),
      ))
    × IsSaved helpers job (λ t. none) undated_parses (lunch ∷ lunch ∷ []) [] picked
deduplicate_and_save-IsSaved_example =
    deduplicate_and_save-IsSaved helpers job (λ t. none) undated_parses (lunch ∷ lunch ∷ []) queued

claim_run_pending_example :
    (claim_run helpers.clock 1 queued).0
    ≡ ok (some (record pending_run { status = RunStatus.in_progress; started_at = some 100 }))
claim_run_pending_example = claim_run_pending helpers.clock 1 queued pending_run refl refl

claim_run_twice_example :
    (claim_run helpers.clock 1 (claim_run helpers.clock 1 queued).1).0 ≡ ok none
claim_run_twice_example = claim_run_twice helpers.clock 1 queued
