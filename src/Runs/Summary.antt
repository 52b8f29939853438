-- ===== src/Runs/Summary.antt =====
-- The column of details (`build_run_detail_summaries` of app/api/v1/processing_runs.py).
use event_creator.Prelude.{
  ℕ, ◌≢◌, refl, Bool, Bool-cases, inl, inr, List, [], ◌∷◌, ◌++◌, take, filter, All,
}
use event_creator.Python.Text.{Text, lit, str_ℕ}
use event_creator.Database.{ProcessingRun, ProcessingStep}
use event_creator.Runs.Details.{
  is_failed_step, is_failed_run, lines_of, first_or, or_all, error_summary, total_lines,
  count_summary, summary,
}

-- No log line of the steps is empty.
abbrev pub HasNoBlank : List ProcessingStep → Type 0
HasNoBlank steps = All (λ s. All (λ line. line ≢ []) s.log_lines) steps

lines_of-All :
    (steps : List ProcessingStep) → HasNoBlank steps → All (λ line. line ≢ []) (lines_of steps)
unfolding lines_of
lines_of-All [] h = tt
lines_of-All (step ∷ steps) h = joined step.log_lines (lines_of steps) h.0 (lines_of-All steps h.1)
  where
    joined :
        (lines more : List Text)
        → All (λ line. line ≢ []) lines
        → All (λ line. line ≢ []) more
        → All (λ line. line ≢ []) (lines ++ more)
    joined [] more none_blank rest = rest
    joined (line ∷ lines) more none_blank rest = (none_blank.0, joined lines more none_blank.1 rest)

filter-HasNoBlank :
    (p : ProcessingStep → Bool) (steps : List ProcessingStep)
    → HasNoBlank steps
    → HasNoBlank (filter p steps)
filter-HasNoBlank p [] h = tt
filter-HasNoBlank p (step ∷ steps) h = elim (Bool-cases (p step)) [
  | inl e ↦ rw (filter, e) (h.0, filter-HasNoBlank p steps h.1)
  | inr e ↦ rw (filter, e) (filter-HasNoBlank p steps h.1)
]

first-filled :
    (failed all : List Text)
    → All (λ line. line ≢ []) failed
    → All (λ line. line ≢ []) all
    → first_or (lit "No details available") (or_all failed all) ≢ []
unfolding first_or or_all lit
first-filled [] [] f a e = cc
first-filled [] (line ∷ all) f a e = a.0 e
first-filled (line ∷ failed) all f a e = f.0 e

take-filled : (t : Text) → t ≢ [] → take 100 t ≢ []
take-filled [] h e = h refl
take-filled (c ∷ t) h e = cc

append-filled : (s t : Text) (c : ℕ) → s ++ c ∷ t ≢ []
append-filled [] t c e = cc
append-filled (d ∷ s) t c e = cc

-- Where no log line of a run's steps is empty, its column of details is not blank, whatever the status
-- of the run and of the steps.
pub summary-filled :
    (run : ProcessingRun) (steps : List ProcessingStep) → HasNoBlank steps → summary run steps ≢ []
unfolding summary error_summary count_summary lit
summary-filled run steps h = elim (Bool-cases (is_failed_run run.status)) [
  | inl e ↦
      rw (summary, e)
        (take-filled _ (
          first-filled (lines_of (filter (λ step. is_failed_step step.status) steps))
            (lines_of steps)
            (lines_of-All _ (filter-HasNoBlank (λ step. is_failed_step step.status) steps h))
            (lines_of-All steps h)))
  | inr e ↦ rw (summary, e) (append-filled (str_ℕ (total_lines steps)) _ 0x20)
]
