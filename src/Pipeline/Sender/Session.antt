-- ===== src/Pipeline/Sender/Session.antt =====
-- `_send_with_session` of app/services/notifications/sender.py, from the user's row on.
use event_creator.Prelude.{Option, none, some}
use event_creator.Database.{HostUser, PipelineNotification}
use event_creator.Database.Actions.{M, ◌>>=◌, pure, gets, get_host_user}
use event_creator.Pipeline.Notify.{get_or_create_user_settings}
use event_creator.Pipeline.Sender.{Channels, Delivery, untried, send_to}

module _ (channels : Channels) (notification : PipelineNotification) where
  -- The settings row is created if there is none; a user who does not exist is sent nothing.
  abbrev send_to_user : Option HostUser → M Delivery
  send_to_user none = pure untried
  send_to_user (some user) = do
    settings ← get_or_create_user_settings notification.user_id
    pure (send_to channels notification settings user)

  abbrev pub send_with_session : M Delivery
  send_with_session = do
    user ← gets (λ w. get_host_user notification.user_id w.db)
    send_to_user user
