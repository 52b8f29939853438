-- ===== src/Pipeline/Notify/Tests.antt =====
-- The log of the Notify step of app/services/pipeline/runner.py for users with different settings.
use event_creator.Prelude.{◌≡◌, refl, true, false, some, none, [], ◌∷◌}
use event_creator.Python.Text.{lit, join}
use event_creator.Pipeline.Notify.{
  is_falsy, silent_notification_modes_warning, default_settings, notify_lines,
}

warning_phone :
    silent_notification_modes_warning false true (some [])
    ≡ some (lit "Warning: disabled email; no phone number")
unfolding silent_notification_modes_warning is_falsy lit join
warning_phone = refl

warning_sms : silent_notification_modes_warning true false none ≡ some (lit "Warning: disabled SMS")
unfolding silent_notification_modes_warning is_falsy lit join
warning_sms = refl

no_warning : silent_notification_modes_warning true true (some (lit "1")) ≡ none
unfolding silent_notification_modes_warning is_falsy lit
no_warning = refl

new_settings : (default_settings 3).notification_sms ≡ true
new_settings = refl

notify_log :
    notify_lines (lit "Done.") none (lit "email failed" ∷ [])
    ≡ lit "Notified user: Done." ∷ lit "Warning: email failed" ∷ []
unfolding notify_lines lit
notify_log = refl
