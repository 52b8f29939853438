-- ===== src/Runs/Details.antt =====
-- The column of details (`build_run_detail_summaries` of app/api/v1/processing_runs.py).
use event_creator.Prelude.{
  ℕ, ◌+◌, Bool, true, false, List, [], ◌∷◌, ◌++◌, map, length, take, filter, ◌==◌, if◌then◌else◌,
}
use event_creator.Python.Text.{Text, lit, str_ℕ}
use event_creator.Database.{RunStatus, StepStatus, ProcessingRun, ProcessingStep}

unfoldable pub is_failed_step : StepStatus → Bool
is_failed_step StepStatus.failed = true
is_failed_step _ = false

unfoldable pub is_failed_run : RunStatus → Bool
is_failed_run RunStatus.failed = true
is_failed_run _ = false

-- The log lines of the steps, one step after another.
unfoldable pub lines_of : List ProcessingStep → List Text
lines_of [] = []
lines_of (step ∷ steps) = step.log_lines ++ lines_of steps

-- `steps_by_run.get(run.id, [])`
unfoldable pub steps_of : ℕ → List ProcessingStep → List ProcessingStep
steps_of run_id steps = filter (λ step. step.run_id == run_id) steps

unfoldable pub first_or : Text → List Text → Text
first_or default [] = default
first_or default (line ∷ lines) = line

-- `failed_lines`, or all lines where there are none.
unfoldable pub or_all : List Text → List Text → List Text
or_all [] all = all
or_all (line ∷ lines) all = line ∷ lines

unfoldable pub error_summary : List ProcessingStep → Text
unfolding is_failed_step first_or or_all
error_summary steps = take 100 (
    first_or (lit "No details available")
      (or_all (lines_of (filter (λ step. is_failed_step step.status) steps)) (lines_of steps)))

-- `sum(len(step.log_lines) for step in run_steps)`
unfoldable pub total_lines : List ProcessingStep → ℕ
total_lines [] = 0
total_lines (step ∷ steps) = length step.log_lines + total_lines steps

unfoldable pub count_summary : ℕ → Text
count_summary n = str_ℕ n ++ (lit " log line" ++ (if n == 1 then [] else lit "s"))

unfoldable pub summary : ProcessingRun → List ProcessingStep → Text
unfolding error_summary count_summary total_lines is_failed_run
summary run steps =
    if is_failed_run run.status then error_summary steps else count_summary (total_lines steps)

-- The summaries of the runs, with their identifiers.
unfoldable pub build_run_detail_summaries :
    List ProcessingRun → List ProcessingStep → List (ℕ × Text)
unfolding summary steps_of
build_run_detail_summaries runs steps =
    map (λ run. (run.id, summary run (steps_of run.id steps))) runs
