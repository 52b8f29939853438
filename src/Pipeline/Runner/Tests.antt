-- ===== src/Pipeline/Runner/Tests.antt =====
-- The log lines that `run_pipeline` of app/services/pipeline/runner.py writes.
use event_creator.Prelude.{◌≡◌, refl, false, [], ◌∷◌}
use event_creator.Python.Text.{lit, str_ℕ, text_eq}
use event_creator.Archive.{gzip}
use event_creator.Pipeline.Steps.{Collaborators, Job}
use event_creator.Pipeline.Runner.{save_log, filter_log, extraction_note}

module _ (env : Collaborators) (job : Job) where
  save_log_empty : save_log env job 0 [] ≡ lit "Saved 0 new events; skipped 0 duplicate(s)" ∷ []
  unfolding save_log lit str_ℕ
  save_log_empty = refl

  filter_log_unchanged :
      filter_log env job (record { text = lit "a"; format_recognised = false }) (lit "a")
      ≡ lit "date format not recognised — kept the full conversation history"
  unfolding filter_log lit text_eq
  filter_log_unchanged = refl

  extraction_note_gzip :
      extraction_note env job gzip
        (record { text = []; member_name = lit "a"; reason = lit "decompressed gzip" })
      ≡ lit "decompressed gzip"
  unfolding extraction_note
  extraction_note_gzip = refl
