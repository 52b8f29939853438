-- ===== src/Pipeline/Notify.antt =====
-- `_silent_notification_modes_warning` and `_notify` of app/services/pipeline/runner.py, and the settings
-- row that they read (app/services/user_settings.py).
pub mod Quiet
pub mod Tests
use event_creator.Prelude.{
  ℕ, ◌+◌, ◌-◌, Bool, true, false, not, ◌&&◌, ◌||◌, Option, none, some, List, [], ◌∷◌, ◌++◌, map,
  ltb, ◌==◌, if◌then◌else◌, length,
}
use event_creator.Python.Text.{Text, lit, text_eq, mem_char, str_ℕ, join, ends_with, lower}
use event_creator.Python.Date.{Date}
use event_creator.Python.Exception.{
  Exception, value_error, validation_error, archive_error, gemini_error, runtime_error, other,
  str_exception, Result, ok, err,
}
use event_creator.Archive
use event_creator.Archive.{
  Bytes, Library, Kind, zip, gzip, ChatExtraction, sniff_archive, decode_text, extract_chat_text,
}
use event_creator.DateParser.{DateLibrary, parse_earliest_date}
use event_creator.MessageFilter.{FilterResult, filter_messages_within_window}
use event_creator.Pipeline.Response.{Json, ExtractedEvent, parse_events}
use event_creator.Database.{
  RunStatus, StepStatus, ProcessingRun, ProcessingStep, Event, UserSettings, HostUser, Db,
  NotificationOutcome, PipelineNotification, RemoteFile, FileDestination, World,
}
use event_creator.Database.Actions.{
  M, ◌>>=◌, ◌>>◌, continue, pure, lift, gets, update_db, commit, utcnow, fresh_id, find_where,
  set_run, set_step, add_step, get_host_user,
}
use event_creator.Pipeline.Steps.{Collaborators, Job, step_notify, begin_step, finish_step}

-- `not phone_number` for a value that may be `None` or empty.
unfoldable pub is_falsy : Option Text → Bool
is_falsy none = true
is_falsy (some []) = true
is_falsy (some (c ∷ t)) = false

unfoldable pub silent_notification_modes_warning : Bool → Bool → Option Text → Option Text
unfolding is_falsy
silent_notification_modes_warning notification_email notification_sms phone_number =
    let disabled =
      (if notification_email then [] else lit "disabled email" ∷ [])
      ++ (if not notification_sms
          then lit "disabled SMS" ∷ []
          else if is_falsy phone_number
          then lit "no phone number" ∷ []
          else []) in
    elim disabled [ [] ↦ none | d ∷ ds ↦ some (lit "Warning: " ++ join (lit "; ") (d ∷ ds)) ]

-- The defaults of a new `UserSettings` row.
abbrev pub default_settings : ℕ → UserSettings
default_settings user_id = record {
  user_id = user_id;
  notification_email = true;
  notification_sms = true;
  onboarding_storage_done = false;
  onboarding_notifications_done = false;
  onboarding_first_upload_done = false;
}

-- The row that was found, or a new one.
settings_or_new : ℕ → Option UserSettings → M UserSettings
settings_or_new user_id (some settings) = pure settings
settings_or_new user_id none = do
  let settings = default_settings user_id
  update_db (λ db. record db { settings = db.settings ++ settings ∷ [] })
  commit
  pure settings

-- `get_or_create_user_settings` (app/services/user_settings.py), with no other request that creates
-- the row at the same time.
pub get_or_create_user_settings : ℕ → M UserSettings
get_or_create_user_settings user_id = do
  found ← gets (λ w. find_where (λ s. s.user_id == user_id) w.db.settings)
  settings_or_new user_id found

abbrev warnings : Option Text → List Text
warnings none = []
warnings (some w) = w ∷ []

-- The log of the Notify step.
notify_lines : Text → Option Text → List Text → List Text
notify_lines message warning delivery_failures =
    (lit "Notified user: " ++ message)
    ∷ (warnings warning ++ map (λ failure. lit "Warning: " ++ failure) delivery_failures)

-- The warning of a run whose user exists; the settings row is created if there is none.
channel_warning : ℕ → Option HostUser → M (Option Text)
channel_warning user_id none = pure none
channel_warning user_id (some user) = do
  settings ← get_or_create_user_settings user_id
  pure (
      silent_notification_modes_warning settings.notification_email settings.notification_sms
        user.phone_number)

module _ (env : Collaborators) (job : Job) where
  -- `notifier.send(...)`: the call is made, and may raise.
  send : PipelineNotification → M (List Text)
  send n w = (env.send n, record w { notifications = w.notifications ++ n ∷ [] })

  pub notify : NotificationOutcome → ℕ → Text → M (Unit {0})
  notify outcome new_count message = do
    step ← begin_step env job step_notify
    delivery_failures ← send (record {
      user_id = job.user_id;
      run_id = job.run_id;
      filename = job.filename;
      outcome = outcome;
      new_event_count = new_count;
      message = message;
    })
    user ← gets (λ w. get_host_user job.user_id w.db)
    warning ← channel_warning job.user_id user
    finish_step env job step StepStatus.success (notify_lines message warning delivery_failures)
