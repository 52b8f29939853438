-- ===== src/Progress/Tests.antt =====
-- The progress stream at concrete polls.
use event_creator.Prelude.{
  ℕ, ◌≡◌, refl, true, false, Option, none, some, List, [], ◌∷◌, ◌==◌, arith,
}
use event_creator.Python.Text.{lit, text_eq}
use event_creator.Database.{RunStatus, StepStatus}
use event_creator.Progress.{
  default_poll_interval, default_max_time, step_value, run_value, is_terminal_value, get_status,
  or_pending, view_of, build_step_views, Sent, step_changed, run_changed, done, latest_status,
  is_status, send_steps, or_pending_run, send_run, Poll, round, nothing_sent, rounds,
  stream_run_progress,
}
use event_creator.Progress.Watched.{Ends, stream_run_progress-Ends}

-- A run that is over at the second poll.
abbrev polls : ℕ → Poll
polls n = elim (n == 0) [
  | true ↦ record { steps = (1, StepStatus.in_progress) ∷ []; run = some RunStatus.in_progress }
  | false ↦ record {
    steps = (1, StepStatus.success) ∷ (7, StepStatus.success) ∷ [];
    run = some RunStatus.success;
  }
]

stream_run_progress-Ends_example :
    Ends polls default_poll_interval default_max_time 400 0 0 nothing_sent
      (stream_run_progress polls default_poll_interval default_max_time 401)
stream_run_progress-Ends_example =
    stream_run_progress-Ends polls default_poll_interval default_max_time 400 (omega arith)

last_events : Option (List Sent) → List Sent
last_events none = []
last_events (some sent) = drop_nine sent
  where
    drop_nine : List Sent → List Sent
    drop_nine (a ∷ b ∷ c ∷ d ∷ e ∷ f ∷ g ∷ h ∷ sent) = sent
    drop_nine sent = []

-- Seven steps and the run at first, then only what has changed.
stream_test :
    last_events (stream_run_progress polls default_poll_interval default_max_time 3)
    ≡ step_changed (record { number = 1; name = lit "File Received"; status = lit "success" })
      ∷ step_changed (record { number = 7; name = lit "Notify"; status = lit "success" })
      ∷ run_changed (lit "success")
      ∷ done (lit "success")
      ∷ []
unfolding last_events stream_run_progress rounds round nothing_sent build_step_views view_of
    or_pending get_status step_value send_steps is_status latest_status send_run or_pending_run
    run_value is_terminal_value text_eq lit
stream_test = refl
