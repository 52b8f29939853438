-- ===== src/Pipeline/Sender/Tests.antt =====
-- Notifications over services that fail, and the property of
-- app/services/notifications/sender.py at a concrete input.
use event_creator.Prelude.{◌≡◌, refl, true, false, some, none, [], ◌∷◌, ◌↔◌}
use event_creator.Python.Text.{lit, str_ℕ}
use event_creator.Python.Exception.{ok, err, os_error}
use event_creator.Database.{HostUser, UserSettings, NotificationOutcome, PipelineNotification}
use event_creator.Pipeline.Notify.{silent_notification_modes_warning}
use event_creator.Pipeline.Sender.{
  Channels, email, sms, attempt, address, dashboard_url, log_url, send_success_email,
  send_failure_email, send_success_sms, send_failure_sms, by_outcome, email_to, sms_to, email_part,
  sms_part, send_to,
}
use event_creator.Pipeline.Sender.Warning.{silent_notification_modes_warning-tried}

-- The body of every text message comes back as an exception; every e-mail is delivered.
abbrev echo : Channels
echo = record {
  base_url = lit "b";
  uuid_text = λ n. lit "7";
  render_success = λ filename n url. ok url;
  render_failure = λ filename message url. err (os_error url);
  send_email = λ to subject html. ok tt;
  send_sms = λ to body. err (os_error body);
}

abbrev ended_well : PipelineNotification
ended_well = record {
  user_id = 2;
  run_id = 7;
  filename = lit "f";
  outcome = NotificationOutcome.success;
  new_event_count = 0;
  message = lit "m";
}

abbrev ended_badly : PipelineNotification
ended_badly = record ended_well { outcome = NotificationOutcome.failed }

abbrev all_on : UserSettings
all_on = record {
  user_id = 2;
  notification_email = true;
  notification_sms = true;
  onboarding_storage_done = false;
  onboarding_notifications_done = false;
  onboarding_first_upload_done = false;
}

abbrev ann : HostUser
ann = record { id = 2; email = some (lit "a@b"); phone_number = some (lit "1") }

send_success : send_to echo ended_well all_on ann ≡ record {
  tried = email ∷ sms ∷ [];
  failures = lit "SMS delivery failed: OrganizeMe: f processed, 0 new event(s). b/dashboard" ∷ [];
}
unfolding send_to email_part sms_part email_to sms_to by_outcome attempt address send_success_email
    send_success_sms dashboard_url lit str_ℕ
send_success = refl

send_failure : send_to echo ended_badly all_on ann ≡ record {
  tried = email ∷ sms ∷ [];
  failures =
      lit "email delivery failed: b/runs/7"
      ∷ lit "SMS delivery failed: OrganizeMe: f processing failed - m b/runs/7"
      ∷ [];
}
unfolding send_to email_part sms_part email_to sms_to by_outcome attempt address send_failure_email
    send_failure_sms log_url lit str_ℕ
send_failure = refl

silent_notification_modes_warning-tried_example :
    (silent_notification_modes_warning all_on.notification_email all_on.notification_sms
        ann.phone_number
      ≡ none)
    ↔ ((send_to echo ended_well all_on ann).tried ≡ email ∷ sms ∷ [])
unfolding lit
silent_notification_modes_warning-tried_example =
    silent_notification_modes_warning-tried echo ended_well all_on ann 0x61 (0x40 ∷ 0x62 ∷ []) refl
