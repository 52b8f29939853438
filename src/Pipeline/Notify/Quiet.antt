-- ===== src/Pipeline/Notify/Quiet.antt =====
-- `_notify` of app/services/pipeline/runner.py leaves a finished Notify row, and does not end the run.
use event_creator.Prelude.{ℕ, Option, none, some, List, [], ◌++◌, ◌∷◌}
use event_creator.Python.Text.{Text}
use event_creator.Python.Exception.{Result, ok, err}
use event_creator.Database.{
  World, HostUser, UserSettings, NotificationOutcome, PipelineNotification,
}
use event_creator.Database.Actions.{gets, pure}
use event_creator.Pipeline.Shown.{
  ended, IsQuiet, Triple, Triple-bind, IsNotifying, IsNotified, Post,
}
use event_creator.Pipeline.Steps.{Collaborators, Job}
use event_creator.Pipeline.Steps.Quiet.{begin_notify, finish_notify}
use event_creator.Pipeline.Notify.{
  get_or_create_user_settings, settings_or_new, channel_warning, notify_lines, send, notify,
}

module _ (env : Collaborators) (job : Job) (step : ℕ) where
  abbrev Notifying : {A : Type 0} → A → World → Type 0
  Notifying _ w = IsNotifying job.run_id step w

  send-Notifying :
      (n : PipelineNotification)
      → Triple job.run_id (IsNotifying job.run_id step) (send env job n) Notifying
  unfolding send ended
  send-Notifying n = record { at = λ w h. sent w (env.send n) h }
    where
      sent :
          (w : World) (r : Result (List Text))
          → IsNotifying job.run_id step w
          → Post job.run_id Notifying r (record w { notifications = w.notifications ++ n ∷ [] })
      sent w (ok failures) h = record {
        quiet = record { running = h.quiet.running; safe = h.quiet.safe };
        begun = h.begun;
      }
      sent w (err e) h = h.quiet.safe

  settings-Notifying :
      (user_id : ℕ) (found : Option UserSettings)
      → Triple job.run_id (IsNotifying job.run_id step) (settings_or_new user_id found) Notifying
  unfolding settings_or_new ended
  settings-Notifying user_id (some s) = record { at = λ w h. h }
  settings-Notifying user_id none = record {
    at = λ w h. record {
      quiet = record {
        running = h.quiet.running;
        safe = ((λ t. cc (h.quiet.running)), h.quiet.safe);
      };
      begun = h.begun;
    };
  }

  gets-Notifying :
      {A : Type 0} (f : World → A)
      → Triple job.run_id (IsNotifying job.run_id step) (gets f) Notifying
  gets-Notifying f = record { at = λ w h. h }

  pure-Notifying :
      {A : Type 0} (a : A) → Triple job.run_id (IsNotifying job.run_id step) (pure a) Notifying
  pure-Notifying a = record { at = λ w h. h }

  warning-Notifying :
      (user_id : ℕ) (user : Option HostUser)
      → Triple job.run_id (IsNotifying job.run_id step) (channel_warning user_id user) Notifying
  unfolding channel_warning get_or_create_user_settings
  warning-Notifying user_id none = pure-Notifying none
  warning-Notifying user_id (some user) =
      Triple-bind job.run_id Notifying _ _
        (Triple-bind job.run_id Notifying _ _ (gets-Notifying _) (settings-Notifying user_id))
        (λ settings. pure-Notifying _)

module _ (env : Collaborators) (job : Job) where
  -- `_notify` ends with the finished row of step 7, if it returns.
  pub notify-IsNotified :
      (outcome : NotificationOutcome) (new_count : ℕ) (message : Text)
      → Triple job.run_id
          (IsQuiet job.run_id)
          (notify env job outcome new_count message)
          (λ _. IsNotified job.run_id)
  unfolding notify
  notify-IsNotified outcome new_count message =
      Triple-bind job.run_id (IsNotifying job.run_id) _ _ (begin_notify env job) λ step.
        Triple-bind job.run_id (Notifying env job step) _ _ (send-Notifying env job step _)
          λ failures.
            Triple-bind job.run_id (Notifying env job step) _ _ (gets-Notifying env job step _)
              λ user.
                Triple-bind job.run_id (Notifying env job step) _ _
                  (warning-Notifying env job step job.user_id user)
                  λ warning. finish_notify env job step (notify_lines message warning failures)
