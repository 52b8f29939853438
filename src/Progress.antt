-- ===== src/Progress.antt =====
-- app/services/pipeline/progress.py: the stream that keeps the page of a run up to date.
pub mod Watched
pub mod Tests
use event_creator.Prelude.{
  ℕ, zero, suc, ◌+◌, Bool, true, false, ◌||◌, Option, none, some, List, [], ◌∷◌, ◌++◌, map, leb,
  ◌==◌, if◌then◌else◌,
}
use event_creator.Python.Text.{Text, lit, text_eq}
use event_creator.Database.{RunStatus, StepStatus}
use event_creator.Pipeline.Steps.{StepName, pipeline_steps}

-- Times in milliseconds.
abbrev pub default_poll_interval : ℕ
default_poll_interval = 750

abbrev pub default_max_time : ℕ
default_max_time = 300000

-- `_status_value`
unfoldable pub step_value : StepStatus → Text
step_value StepStatus.pending = lit "pending"
step_value StepStatus.in_progress = lit "in_progress"
step_value StepStatus.success = lit "success"
step_value StepStatus.failed = lit "failed"
step_value StepStatus.skipped = lit "skipped"

unfoldable pub run_value : RunStatus → Text
run_value RunStatus.pending = lit "pending"
run_value RunStatus.in_progress = lit "in_progress"
run_value RunStatus.success = lit "success"
run_value RunStatus.failed = lit "failed"

-- `TERMINAL_RUN_STATUSES`
unfoldable pub is_terminal_value : Text → Bool
unfolding run_value
is_terminal_value status =
    text_eq status (run_value RunStatus.success) || text_eq status (run_value RunStatus.failed)

pub record StepView : Type 0 where
  pub number : ℕ
  pub name : Text
  pub status : Text

-- The rows of a run as one poll reads them: step numbers with their statuses, in the table's order.
abbrev pub Statuses : Type 0
Statuses = List (ℕ × StepStatus)

-- A value of a dictionary that is built from a list: the last entry with the key.
unfoldable pub get_status : ℕ → Statuses → Option StepStatus
get_status number [] = none
get_status number (row ∷ rows) = elim (get_status number rows) [
  | some status ↦ some status
  | none ↦ if row.0 == number then some row.1 else none
]

unfoldable pub or_pending : Option StepStatus → Text
unfolding step_value
or_pending none = step_value StepStatus.pending
or_pending (some status) = step_value status

unfoldable pub view_of : Statuses → StepName → StepView
unfolding or_pending get_status
view_of statuses step = record {
  number = step.number;
  name = step.name;
  status = or_pending (get_status step.number statuses);
}

-- One view for each of the seven steps, in their order.
unfoldable pub build_step_views : Statuses → List StepView
unfolding view_of
build_step_views statuses = map (view_of statuses) pipeline_steps

-- The events of the stream; the fragments are rendered from what they carry.
pub data Sent : Type 0 where
  step_changed : StepView → Sent
  run_changed : Text → Sent
  done : Text → Sent

-- `last_step_status`, newest first, and `last_run_status`.
abbrev pub Entries : Type 0
Entries = List (ℕ × Text)

pub record Last : Type 0 where
  pub steps : Entries
  pub run : Option Text

-- The newest entry of `last_step_status` for a step.
unfoldable pub latest_status : ℕ → Entries → Option Text
latest_status number [] = none
latest_status number (entry ∷ entries) =
    let rest = latest_status number entries in if entry.0 == number then some entry.1 else rest

unfoldable pub is_status : Text → Option Text → Bool
is_status status none = false
is_status status (some other) = text_eq other status

-- The loop over the views: what was last sent afterwards, and what is sent now.
unfoldable pub send_steps : List StepView → Entries → Entries × List Sent
unfolding is_status latest_status
send_steps [] last = (last, [])
send_steps (view ∷ views) last =
    let unchanged = send_steps views last in
    let changed = send_steps views ((view.number, view.status) ∷ last) in
    if is_status view.status (latest_status view.number last)
    then unchanged
    else (changed.0, step_changed view ∷ changed.1)

unfoldable pub or_pending_run : Option RunStatus → Text
unfolding run_value
or_pending_run none = lit "pending"
or_pending_run (some status) = run_value status

unfoldable pub send_run : Text → Option Text → List Sent
unfolding is_status
send_run status last = if is_status status last then [] else run_changed status ∷ []

-- What one poll reads, in two statements: the steps, and later the run's status, if it has a row.
pub record Poll : Type 0 where
  pub steps : Statuses
  pub run : Option RunStatus

-- One round of the loop up to its tests: what was last sent afterwards, and what is sent.
unfoldable pub round : Poll → Last → Last × List Sent
unfolding build_step_views send_steps or_pending_run send_run
round poll last =
    let sent = send_steps (build_step_views poll.steps) last.steps in
    let run = or_pending_run poll.run in
    (record { steps = sent.0; run = some run }, sent.1 ++ send_run run last.run)

unfoldable pub nothing_sent : Last
nothing_sent = record { steps = []; run = none }

module _ (polls : ℕ → Poll) (poll_interval max_time : ℕ) where
  -- The rounds from the n-th on; `none` when the fuel is spent.
  unfoldable pub rounds : ℕ → ℕ → ℕ → Last → Option (List Sent)
  unfolding round or_pending_run is_terminal_value
  rounds zero n elapsed last = none
  rounds (suc fuel) n elapsed last =
      let now = round (polls n) last in
      let status = or_pending_run (polls n).run in
      let rest = rounds fuel (n + 1) (elapsed + poll_interval) now.0 in
      if is_terminal_value status
      then some (now.1 ++ done status ∷ [])
      else if leb max_time elapsed
      then some now.1
      else elim rest [ none ↦ none | some later ↦ some (now.1 ++ later) ]

  unfoldable pub stream_run_progress : ℕ → Option (List Sent)
  unfolding rounds nothing_sent
  stream_run_progress fuel = rounds fuel 0 0 nothing_sent
