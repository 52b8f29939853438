-- ===== src/Pipeline/Sender/Warning.antt =====
-- `silent_notification_modes_warning` of app/services/pipeline/runner.py, and the channels that
-- app/services/notifications/sender.py really tries.
use event_creator.Prelude.{
  Bool, true, false, Option, none, some, List, [], ◌∷◌, ◌++◌, ◌≡◌, refl, ◌↔◌, if◌then◌else◌, ℕ,
}
use event_creator.Python.Text.{Text}
use event_creator.Python.Exception.{Result, ok, err}
use event_creator.Database.{HostUser, UserSettings, PipelineNotification}
use event_creator.Pipeline.Notify.{is_falsy, silent_notification_modes_warning}
use event_creator.Pipeline.Sender.{
  Channels, Channel, email, sms, attempt, address, email_to, sms_to, email_part, sms_part, send_to,
}

attempt-tried :
    (channel : Channel) (label : Text) (r : Result (Unit {0}))
    → (attempt channel label r).tried ≡ channel ∷ []
unfolding attempt
attempt-tried channel label (ok u) = refl
attempt-tried channel label (err exc) = refl

module _ (channels : Channels) (notification : PipelineNotification) where
  email_part-tried :
      (on : Bool) (e : Text) (c : ℕ)
      → (email_part channels notification on (some (c ∷ e))).tried ≡ (if on then email ∷ [] else [])
  unfolding email_part email_to address
  email_part-tried true e c = attempt-tried email _ _
  email_part-tried false e c = refl

  sms_part-tried :
      (on : Bool) (phone : Option Text)
      → (sms_part channels notification on phone).tried
        ≡ (if on then (if is_falsy phone then [] else sms ∷ []) else [])
  unfolding sms_part sms_to address is_falsy
  sms_part-tried false phone = refl
  sms_part-tried true none = refl
  sms_part-tried true (some []) = refl
  sms_part-tried true (some (c ∷ t)) = attempt-tried sms _ _

  abbrev on_or_off : Bool → Bool → Option Text → List Channel
  on_or_off by_email by_sms phone =
      (if by_email then email ∷ [] else [])
      ++ (if by_sms then (if is_falsy phone then [] else sms ∷ []) else [])

  warning-none :
      (by_email by_sms : Bool) (phone : Option Text)
      → (silent_notification_modes_warning by_email by_sms phone ≡ none)
        ↔ (on_or_off by_email by_sms phone ≡ email ∷ sms ∷ [])
  unfolding silent_notification_modes_warning is_falsy
  warning-none true true none = (λ h. cc, λ h. cc)
  warning-none true true (some []) = (λ h. cc, λ h. cc)
  warning-none true true (some (c ∷ t)) = (λ h. refl, λ h. refl)
  warning-none true false phone = (λ h. cc, λ h. cc)
  warning-none false true none = (λ h. cc, λ h. cc)
  warning-none false true (some []) = (λ h. cc, λ h. cc)
  warning-none false true (some (c ∷ t)) = (λ h. cc, λ h. cc)
  warning-none false false phone = (λ h. cc, λ h. cc)

  -- For a user with an e-mail address, `silent_notification_modes_warning` gives no text exactly when
  -- the sender tries both channels, e-mail first, whatever the templates and the services do. The
  -- warnings of failed deliveries are not meant.
  pub silent_notification_modes_warning-tried :
      (settings : UserSettings) (user : HostUser) (c : ℕ) (address : Text)
      → user.email ≡ some (c ∷ address)
      → (silent_notification_modes_warning settings.notification_email settings.notification_sms
            user.phone_number
          ≡ none)
        ↔ ((send_to channels notification settings user).tried ≡ email ∷ sms ∷ [])
  unfolding send_to
  silent_notification_modes_warning-tried settings user c address h =
      rw
        (
          h,
          email_part-tried settings.notification_email address c,
          sms_part-tried settings.notification_sms user.phone_number,
        )
        (warning-none settings.notification_email settings.notification_sms user.phone_number)
