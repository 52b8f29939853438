-- ===== src/Pipeline/Samples.antt =====
-- A run of the pipeline with concrete collaborators, for the tests.
use event_creator.Prelude.{◌+◌, false, some, none, [], ◌∷◌}
use event_creator.Python.Text.{lit}
use event_creator.Python.Exception.{ok, err, value_error}
use event_creator.Archive.Tests.{small_library}
use event_creator.DateParser.{DateLibrary}
use event_creator.Database.{RunStatus, ProcessingRun, Db, World}
use event_creator.Python.Json.{null, array, cons, nil}
use event_creator.Pipeline.Response.{ExtractedEvent}
use event_creator.Pipeline.Steps.{Collaborators, Job}

abbrev pub lunch : ExtractedEvent
lunch = record {
  kind = lit "plan";
  description = lit "Lunch";
  resolved_date = lit "Sunday, August 30, 2026";
  raw_date_text = lit "on Sunday";
  agreed_by = lit "Ann" ∷ lit "Bob" ∷ [];
}

-- No fragment has a digit, so that every text parses to no date.
abbrev pub undated : DateLibrary
undated = record { is_digit = λ c. false; parse = λ t. err (value_error t) }

-- The archive library takes every content for an archive; the AI answers with two equal events.
abbrev pub helpers : Collaborators
helpers = record {
  clock = λ n. 100 + n;
  download_file = λ file. ok (lit "PK");
  move_file = λ file destination. ok tt;
  extract = λ prompt conversation. ok (lit "[null, null]");
  send = λ notification. ok [];
  archive = small_library;
  dates = undated;
  json = record {
    loads = λ t. ok (array (cons null (cons null nil)));
    model_validate = λ v. ok lunch;
  };
}

abbrev pub job : Job
job = record {
  run_id = 1;
  user_id = 2;
  filename = lit "chat.zip";
  remote_file = record { id = lit "f"; name = lit "chat.zip" };
  prompt_text = lit "Find the plans.";
  window_days = 7;
}

abbrev pub pending_run : ProcessingRun
pending_run = record {
  id = 1;
  user_id = 2;
  filename = lit "chat.zip";
  status = RunStatus.pending;
  events_extracted_count = 0;
  created_at = 5;
  started_at = none;
  completed_at = none;
}

abbrev pub tables : Db
tables = record {
  runs = pending_run ∷ [];
  steps = [];
  events = [];
  settings = [];
  users = record { id = 2; email = some (lit "ann@example.org"); phone_number = none } ∷ [];
  configs = [];
  prompts = [];
}

-- The run has been created and committed.
abbrev pub queued : World
queued = record {
  db = tables;
  committed = tables ∷ [];
  next_id = 10;
  reads = 0;
  notifications = [];
  moves = [];
  tasks = [];
}
