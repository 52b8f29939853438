-- ===== src/Pipeline/Steps/Quiet.antt =====
-- The step rows that app/services/pipeline/runner.py writes do not end a run.
use event_creator.Prelude.{ℕ, ◌≡◌, refl, true, List, ==_iff}
use event_creator.Python.Text.{Text}
use event_creator.Database.{StepStatus}
use event_creator.Pipeline.Shown.{
  ended, IsQuiet, Triple, Keeps, IsNotifying, IsNotified, is_begun, begun_last, notified,
  notified-finish,
}
use event_creator.Pipeline.Steps.{
  Collaborators, Job, StepName, step_notify, step_row, begin_step, finish_step,
}

module _ (env : Collaborators) (job : Job) where
  pub begin_step-Keeps : (step : StepName) → Keeps job.run_id (begin_step env job step)
  unfolding begin_step ended
  begin_step-Keeps step = record {
    at = λ w h. record { running = h.running; safe = ((λ t. cc (h.running)), h.safe) };
  }

  pub finish_step-Keeps :
      (step : ℕ) (status : StepStatus) (log_lines : List Text)
      → Keeps job.run_id (finish_step env job step status log_lines)
  unfolding finish_step ended
  finish_step-Keeps step status log_lines = record {
    at = λ w h. record { running = h.running; safe = ((λ t. cc (h.running)), h.safe) };
  }

  notify_row :
      (id started : ℕ) → is_begun job.run_id id (step_row id job.run_id step_notify started) ≡ true
  unfolding is_begun step_row
  notify_row id started = rw ((==_iff id id).1 refl, (==_iff job.run_id job.run_id).1 refl)

  pub begin_notify :
      Triple job.run_id
        (IsQuiet job.run_id)
        (begin_step env job step_notify)
        (IsNotifying job.run_id)
  unfolding begin_step ended
  begin_notify = record {
    at = λ w h. record {
      quiet = record { running = h.running; safe = ((λ t. cc (h.running)), h.safe) };
      begun =
          begun_last job.run_id w.next_id
            (step_row w.next_id job.run_id step_notify (env.clock w.reads)) w.db.steps
            (notify_row w.next_id (env.clock w.reads));
    };
  }

  pub finish_notify :
      (step : ℕ) (log_lines : List Text)
      → Triple job.run_id
          (IsNotifying job.run_id step)
          (finish_step env job step StepStatus.success log_lines)
          (λ _. IsNotified job.run_id)
  unfolding finish_step ended notified
  finish_notify step log_lines = record {
    at = λ w h. record {
      quiet = record {
        running = h.quiet.running;
        safe = ((λ t. cc (h.quiet.running)), h.quiet.safe);
      };
      finished = notified-finish job.run_id step log_lines (env.clock w.reads) w.db.steps h.begun;
    };
  }
