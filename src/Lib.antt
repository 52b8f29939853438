-- ===== src/Lib.antt =====
-- event-creator turns WhatsApp exports into calendar events. A file in the user's storage folder, or one
-- that the user uploads, becomes a run and a task of the queue; the queue calls a push endpoint, which
-- downloads the file, unpacks it, cuts it down to the last days of the conversation and sends it to an AI
-- model, whose answer becomes rows of the events table. Each run leaves rows for its seven steps, which the
-- progress page shows while the run goes on, and ends with a notification and the file moved away. The
-- events are listed, reviewed and deleted over an API.
--
-- The files, and the code that each is about:
--
--   Python         text as lists of code points (Text.Parts about its tests and its order), dates as
--                  ordinals, exceptions as values, JSON values, methods that change an object (State), and
--                  a backtracking matcher for the regular expressions that the code uses
--   MessageFilter  app/core/message_filter.py. Formats has the four patterns and `_match_line`; the
--                  rest stands in the file itself under the source's names. Messages and Window are
--                  about the window; Stamps, RoundTrip, DateOrder and Exports about reading dates
--   Archive        app/core/archive.py, all of it. Members and Selection are about the member that is
--                  taken, Errors about exceptions
--   DateParser     app/core/date_parser.py
--   Database       the tables of app/models that a run uses, and a session: `World` holds the tables,
--                  the snapshots that were committed, and the calls made to the outside. Actions has
--                  the session's calls
--   Pipeline       app/services/pipeline/runner.py. Response is `_parse_events`, Steps is `_begin_step`
--                  and `_finish_step`, Notify is `_notify`, Save is `_deduplicate_and_save`, Runner is
--                  `_fail_run` and `run_pipeline`, which is cut where it can return: each part ends with
--                  a call of the next. Shown has what the progress page can see of a run. Sender is
--                  app/services/notifications/sender.py, and Dispatch is `_claim_run` of
--                  app/services/pipeline/dispatch.py
--   Pipeline.Push  the rest of app/services/pipeline/dispatch.py and the endpoint of
--                  app/api/v1/internal_pipeline.py. Chain is about the batch that the pushes hand on and
--                  a queue that delivers a task any number of times,
--                  Redelivery about a task that is delivered again, Unscheduled about runs whose task
--                  the queue refused
--   Storage        app/services/storage. Http is the client that a provider is given, Token what the
--                  Drive and Dropbox providers have in common, GoogleDrive and Dropbox the two
--                  providers, Factory the choice of a provider
--   UserSettings   app/services/user_settings.py
--   Upload         app/api/v1/upload.py and app/api/v1/import_pending_files.py. Batch is about the task
--                  of a batch, Created about the runs that an import leaves
--   Events         app/api/v1/events.py and app/core/calendar_url.py (Links). Bulk, Search, Pages and
--                  Answers are about the bulk actions, the search pattern, the pages and the links
--   Settings       app/api/v1/storage_config.py and app/api/v1/llm_prompt.py. Provider and Prompt are about
--                  the configuration and the prompt that a user saves
--   Runs           app/api/v1/processing_runs.py and app/services/processing_logs.py. Schemas has the
--                  answers, Details the column of details; Owner is about the runs of other users, Summary
--                  about that column, Pages about the pages of log lines
--   Progress       app/services/pipeline/progress.py. Watched is about what the browser shows
--
-- A run goes through them in this order: Upload adds its row and enqueues a task, Pipeline.Push claims the
-- run with a provider from Storage.Factory and calls Pipeline.Runner, and Progress reads what the runner
-- commits.
--
-- Code outside the repository is a parameter: `zipfile`, `gzip` and the codecs (Archive.Library),
-- `dateutil` (DateLibrary), `json` and pydantic (Json), the templates and the services that deliver
-- (Sender.Channels), the storage provider, the Gemini client and the notifier of a run (Collaborators),
-- the HTTP services behind a provider (Http.Service), Cloud Tasks, base 64 and the credential cipher
-- (Push.Deployment), and PostgreSQL's ILIKE, ORDER BY and DISTINCT (Events.Postgres, Runs.Database). Each
-- call of them that can fail returns a value or an exception of any class.
--
-- Bounds: a date is the ordinal of Python's `date`, and a subtraction that would leave the range raises,
-- as there. Two loops have no bound in their data and run on fuel: the pages of a Dropbox listing, which
-- end when the service says so (fuel for the number of its pages is enough), and the rounds of the progress
-- stream, which its time limit ends (fuel for the limit divided by the interval, and one more, is enough).
-- Every other definition is structural: the matcher is recursive in the pattern and its digit counts, and
-- every loop in its list. Identifiers are numbers, which the program only compares, and times are readings
-- of a clock; the progress stream counts milliseconds.
--
-- Not modelled: calls of the logger; columns that no modelled code reads; `aclose` of a provider; the
-- check of the push endpoint's caller, which is a call of google-auth; the OAuth callbacks and the form
-- of the user's settings, the S3 provider and the Gemini client (calls of third-party clients), and
-- the pages, which render templates. Of concurrent requests, the model has the push that is delivered
-- again, in whatever state the tables then are, and the insert of a settings row or of a prompt by
-- another request (a parameter of UserSettings and of Settings).
pub mod Prelude
pub mod Python
pub mod MessageFilter
pub mod Archive
pub mod Database
pub mod DateParser
pub mod Pipeline
pub mod Storage
pub mod UserSettings
pub mod Upload
pub mod Events
pub mod Progress
pub mod Settings
pub mod Runs
