-- ===== src/Pipeline/Sender.antt =====
-- `RealNotificationSender` of app/services/notifications/sender.py: which channels a notification
-- goes to, and the failures that it reports. The templates and the two services that deliver are the
-- record `Channels`.
pub mod Warning
pub mod Tests
pub mod Session
use event_creator.Prelude.{Bool, true, false, Option, none, some, List, [], ◌∷◌, ◌++◌, ℕ}
use event_creator.Python.Text.{Text, lit, str_ℕ}
use event_creator.Python.Exception.{Result, ok, err, str_exception, ◌>>=◌}
use event_creator.Database.{HostUser, UserSettings, NotificationOutcome, PipelineNotification}

pub record Channels : Type 0 where
  pub base_url : Text
  -- `str(run_id)`
  pub uuid_text : ℕ → Text
  -- `success.html.j2` and `failure.html.j2`, with the values in the order of the source
  pub render_success : Text → ℕ → Text → Result Text
  pub render_failure : Text → Text → Text → Result Text
  -- `email_sender.send(to, subject, html)`, `sms_sender.send(to, body)`
  pub send_email : Text → Text → Text → Result (Unit {0})
  pub send_sms : Text → Text → Result (Unit {0})

pub data Channel : Type 0 where
  email sms : Channel

-- The channels that were tried, and a description of each that raised.
pub record Delivery : Type 0 where
  pub tried : List Channel
  pub failures : List Text

abbrev untried : Delivery
untried = record { tried = []; failures = [] }

-- `try: ... except Exception as exc: failures.append(...)`
attempt : Channel → Text → Result (Unit {0}) → Delivery
attempt channel label (ok _) = record { tried = channel ∷ []; failures = [] }
attempt channel label (err exc) = record {
  tried = channel ∷ [];
  failures = (label ++ str_exception exc) ∷ [];
}

-- `not user.email`, with the address that is there otherwise.
address : Option Text → Option Text
address none = none
address (some []) = none
address (some (c ∷ t)) = some (c ∷ t)

module _ (channels : Channels) (notification : PipelineNotification) where
  open channels use {base_url, uuid_text, render_success, render_failure, send_email, send_sms}

  dashboard_url : Text
  dashboard_url = base_url ++ lit "/dashboard"

  log_url : Text
  log_url = base_url ++ (lit "/runs/" ++ uuid_text notification.run_id)

  send_success_email : Text → Result (Unit {0})
  send_success_email to = do
    html ← render_success notification.filename notification.new_event_count dashboard_url
    send_email to (lit "OrganizeMe: " ++ (notification.filename ++ lit " processed successfully"))
        html

  send_failure_email : Text → Result (Unit {0})
  send_failure_email to = do
    html ← render_failure notification.filename notification.message log_url
    send_email to (lit "OrganizeMe: " ++ (notification.filename ++ lit " processing failed")) html

  send_success_sms : Text → Result (Unit {0})
  send_success_sms to = send_sms to (
      lit "OrganizeMe: "
      ++ (notification.filename
          ++ (lit " processed, "
              ++ (str_ℕ notification.new_event_count ++ (lit " new event(s). " ++ dashboard_url)))))

  send_failure_sms : Text → Result (Unit {0})
  send_failure_sms to = send_sms to (
      lit "OrganizeMe: "
      ++ (notification.filename
          ++ (lit " processing failed - " ++ (notification.message ++ (lit " " ++ log_url)))))

  by_outcome : Result (Unit {0}) → Result (Unit {0}) → NotificationOutcome → Result (Unit {0})
  by_outcome failure success NotificationOutcome.failed = failure
  by_outcome failure success _ = success

  email_to : Option Text → Delivery
  email_to none = untried
  email_to (some to) =
      attempt email (lit "email delivery failed: ")
        (by_outcome (send_failure_email to) (send_success_email to) notification.outcome)

  sms_to : Option Text → Delivery
  sms_to none = untried
  sms_to (some to) =
      attempt sms (lit "SMS delivery failed: ")
        (by_outcome (send_failure_sms to) (send_success_sms to) notification.outcome)

  email_part : Bool → Option Text → Delivery
  email_part false user_email = untried
  email_part true user_email = email_to (address user_email)

  sms_part : Bool → Option Text → Delivery
  sms_part false phone_number = untried
  sms_part true phone_number = sms_to (address phone_number)

  -- `_send_with_session` for a user who exists, from the settings that it reads.
  pub send_to : UserSettings → HostUser → Delivery
  send_to settings user =
      let by_email = email_part settings.notification_email user.email in
      let by_sms = sms_part settings.notification_sms user.phone_number in
      record {
        tried = by_email.tried ++ by_sms.tried;
        failures = by_email.failures ++ by_sms.failures;
      }
