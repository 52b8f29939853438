-- ===== src/Pipeline/Save.antt =====
-- `_deduplicate_and_save` of app/services/pipeline/runner.py. A row that is added is seen by the next
-- query (autoflush), and an insert against `uq_events_user_description_resolved_date` raises.
pub mod Table
pub mod Quiet
use event_creator.Prelude.{
  ℕ, ◌+◌, ◌-◌, Bool, true, false, not, ◌&&◌, ◌||◌, Option, none, some, List, [], ◌∷◌, ◌++◌, map,
  ltb, ◌==◌, if◌then◌else◌, length,
}
use event_creator.Python.Text.{Text, lit, text_eq, mem_char, str_ℕ, join, ends_with, lower}
use event_creator.Python.Date.{Date}
use event_creator.Python.Exception.{
  Exception, value_error, validation_error, archive_error, gemini_error, runtime_error, other,
  str_exception, Result, ok, err,
}
use event_creator.Archive
use event_creator.Archive.{
  Bytes, Library, Kind, zip, gzip, ChatExtraction, sniff_archive, decode_text, extract_chat_text,
}
use event_creator.DateParser.{DateLibrary, parse_earliest_date}
use event_creator.MessageFilter.{FilterResult, filter_messages_within_window}
use event_creator.Pipeline.Response.{Json, ExtractedEvent, parse_events}
use event_creator.Database.{
  RunStatus, StepStatus, ProcessingRun, ProcessingStep, Event, UserSettings, HostUser, Db,
  NotificationOutcome, PipelineNotification, RemoteFile, FileDestination, World,
}
use event_creator.Database.Actions.{
  M, ◌>>=◌, ◌>>◌, continue, pure, lift, gets, update_db, commit, utcnow, fresh_id, find_where,
  set_run, set_step, add_step, get_host_user,
}
use event_creator.Pipeline.Steps.{Collaborators, Job}

-- What the constraint compares besides the user: description and resolved date.
abbrev pub Key : Type 0
Key = Text × Text

abbrev pub key_of : ExtractedEvent → Key
key_of event = (event.description, event.resolved_date)

key_eq : Key → Key → Bool
key_eq a b = text_eq a.0 b.0 && text_eq a.1 b.1

mem_key : Key → List Key → Bool
mem_key k [] = false
mem_key k (j ∷ seen) = key_eq k j || mem_key k seen

has_key : ℕ → Key → Event → Bool
unfolding key_eq
has_key user_id key row = row.user_id == user_id && key_eq (row.description, row.resolved_date) key

-- `select(Event.id).where(...)` finds a row.
pub stored : ℕ → Key → List Event → Bool
stored user_id key [] = false
stored user_id key (row ∷ rows) = has_key user_id key row || stored user_id key rows

abbrev integrity_error : Exception
integrity_error = other (lit "IntegrityError")

pub event_row : Job → ExtractedEvent → Option Date → Event
event_row job event earliest = record {
  user_id = job.user_id;
  run_id = job.run_id;
  kind = event.kind;
  description = event.description;
  resolved_date = event.resolved_date;
  resolved_date_earliest = earliest;
  raw_date_text = event.raw_date_text;
  agreed_by = event.agreed_by;
  reviewed = false;
}

-- `session.add(Event(...))` and its flush.
add_event : Job → ExtractedEvent → Option Date → M (Unit {0})
add_event job event earliest w =
    if stored job.user_id (key_of event) w.db.events then (err integrity_error, w) else (
      ok tt,
      record w { db = record w.db { events = w.db.events ++ event_row job event earliest ∷ [] } },
    )

module _ (env : Collaborators) (job : Job) where
  -- The loop, with `seen_in_batch` and `new_count`.
  save_events : List Key → ℕ → List ExtractedEvent → M ℕ
  save_events seen new_count [] = pure new_count
  save_events seen new_count (event ∷ events) = elim (mem_key (key_of event) seen) [
    | true ↦ save_events seen new_count events
    | false ↦ do
      already_exists ← gets (λ w. stored job.user_id (key_of event) w.db.events)
      elim already_exists [
        | true ↦ save_events (key_of event ∷ seen) new_count events
        | false ↦ do
          earliest ← lift (parse_earliest_date env.dates event.resolved_date)
          add_event job event earliest
          save_events (key_of event ∷ seen) (new_count + 1) events
      ]
  ]

  pub deduplicate_and_save : List ExtractedEvent → M ℕ
  deduplicate_and_save = save_events [] 0
