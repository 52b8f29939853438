-- ===== src/Database.antt =====
-- The tables that the program reads and writes (app/models/*.py), and one database session over them:
-- an action takes the world and gives a result or an exception, and the world that it leaves.
-- `committed` holds, newest first, the tables as each commit left them: what every other session,
-- the progress page among them, has been able to see.
pub mod Actions
use event_creator.Prelude.{ℕ, Bool, Option, List}
use event_creator.Python.Text.{Text}
use event_creator.Python.Date.{Date}

pub data RunStatus : Type 0 where
  pending in_progress success failed : RunStatus

pub data StepStatus : Type 0 where
  pending in_progress success failed skipped : StepStatus

-- Identifiers are UUIDs, which the program only compares; times are readings of a clock.
pub record ProcessingRun : Type 0 where
  pub id : ℕ
  pub user_id : ℕ
  pub filename : Text
  pub status : RunStatus
  pub events_extracted_count : ℕ
  pub created_at : ℕ
  pub started_at : Option ℕ
  pub completed_at : Option ℕ

pub record ProcessingStep : Type 0 where
  pub id : ℕ
  pub run_id : ℕ
  pub step_number : ℕ
  pub step_name : Text
  pub status : StepStatus
  pub log_lines : List Text
  pub started_at : Option ℕ
  pub completed_at : Option ℕ

pub record Event : Type 0 where
  pub user_id : ℕ
  pub run_id : ℕ
  pub kind : Text
  pub description : Text
  pub resolved_date : Text
  pub resolved_date_earliest : Option Date
  pub raw_date_text : Text
  pub agreed_by : List Text
  pub reviewed : Bool

pub record UserSettings : Type 0 where
  pub user_id : ℕ
  pub notification_email : Bool
  pub notification_sms : Bool
  pub onboarding_storage_done : Bool
  pub onboarding_notifications_done : Bool
  pub onboarding_first_upload_done : Bool

pub record HostUser : Type 0 where
  pub id : ℕ
  pub email : Option Text
  pub phone_number : Option Text

pub data StorageProviderType : Type 0 where
  google_drive dropbox s3 : StorageProviderType

-- The credentials are as they are stored, encrypted.
pub record StorageConfig : Type 0 where
  pub user_id : ℕ
  pub provider : StorageProviderType
  pub folder_path : Text
  pub oauth_access_token : Option Text
  pub oauth_refresh_token : Option Text
  pub oauth_token_expires_at : Option ℕ
  pub s3_access_key : Option Text
  pub s3_secret_key : Option Text
  pub s3_bucket_name : Option Text
  pub s3_region : Option Text

pub record LlmPrompt : Type 0 where
  pub user_id : ℕ
  pub prompt_text : Text

pub record Db : Type 0 where
  pub runs : List ProcessingRun
  pub steps : List ProcessingStep
  pub events : List Event
  pub settings : List UserSettings
  pub users : List HostUser
  pub configs : List StorageConfig
  pub prompts : List LlmPrompt

pub data NotificationOutcome : Type 0 where
  success no_new_events failed : NotificationOutcome

pub record PipelineNotification : Type 0 where
  pub user_id : ℕ
  pub run_id : ℕ
  pub filename : Text
  pub outcome : NotificationOutcome
  pub new_event_count : ℕ
  pub message : Text

pub record RemoteFile : Type 0 where
  pub id : Text
  pub name : Text

pub data FileDestination : Type 0 where
  processed failed : FileDestination

-- The body of a push task (`PipelineDispatchPayload` of app/api/v1/internal_pipeline.py): an item of a
-- batch, and the first item with the rest of the batch.
pub record BatchItem : Type 0 where
  pub run_id : ℕ
  pub remote_file_id : Text
  pub remote_file_name : Text
  pub storage_mode : Text
  pub inline_content_b64 : Option Text

pub record PipelineDispatchPayload : Type 0 where
  pub item : BatchItem
  pub user_id : ℕ
  pub prompt_text : Text
  pub remaining_batch : List BatchItem

-- The session's view of the tables, what it has committed, the next fresh identifier, how often the
-- clock was read, the calls made to the notifier and to the storage's `move_file`, and the tasks given
-- to the queue, newest last.
pub record World : Type 0 where
  pub db : Db
  pub committed : List Db
  pub next_id : ℕ
  pub reads : ℕ
  pub notifications : List PipelineNotification
  pub moves : List (RemoteFile × FileDestination)
  pub tasks : List PipelineDispatchPayload
