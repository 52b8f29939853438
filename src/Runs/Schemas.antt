-- ===== src/Runs/Schemas.antt =====
-- app/schemas/processing_run.py: the answers about runs, steps and log lines, without the constant page
-- size.
use event_creator.Prelude.{ℕ, Option, List}
use event_creator.Python.Text.{Text}
use event_creator.Database.{RunStatus, StepStatus}

pub record ProcessingRunRead : Type 0 where
  pub id : ℕ
  pub filename : Text
  pub status : RunStatus
  pub events_extracted_count : ℕ
  pub created_at : ℕ
  pub detail_summary : Text

pub record ProcessingRunListRead : Type 0 where
  pub runs : List ProcessingRunRead
  pub page : ℕ
  pub total : ℕ

pub record ProcessingStepRead : Type 0 where
  pub step_number : ℕ
  pub step_name : Text
  pub status : StepStatus
  pub started_at : Option ℕ
  pub completed_at : Option ℕ

pub record ProcessingRunDetailRead : Type 0 where
  pub id : ℕ
  pub filename : Text
  pub status : RunStatus
  pub events_extracted_count : ℕ
  pub created_at : ℕ
  pub started_at : Option ℕ
  pub completed_at : Option ℕ
  pub steps : List ProcessingStepRead

pub record ProcessingLogLineRead : Type 0 where
  pub step_number : ℕ
  pub step_name : Text
  pub log_lines : List Text
  pub page : ℕ
  pub total : ℕ

pub record ProcessingStepLogsRead : Type 0 where
  pub step_number : ℕ
  pub step_name : Text
  pub status : StepStatus
  pub log_lines : List Text

pub record ProcessingRunLogsDownloadRead : Type 0 where
  pub run_id : ℕ
  pub filename : Text
  pub steps : List ProcessingStepLogsRead
