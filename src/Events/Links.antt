-- ===== src/Events/Links.antt =====
-- app/core/calendar_url.py: links that open Google Calendar and Google Tasks with a new entry.
use event_creator.Prelude.{ℕ, ◌+◌, true, false, Option, none, some, List, [], ◌∷◌, ◌++◌, leb}
use event_creator.Python.Text.{Text, lit, join}
use event_creator.Python.Date.{Date}
use event_creator.Python.Exception.{Result, ok, err, ◌>>=◌, value_error}

-- `strftime("%Y%m%d")`, `isoformat()` and `urlencode`.
pub record Formats : Type 0 where
  pub strftime : Date → Text
  pub isoformat : Date → Text
  pub urlencode : List (Text × Text) → Text

-- `date.max.toordinal()`
abbrev pub max_ordinal : ℕ
max_ordinal = 3652059

abbrev google_calendar_render_url : Text
google_calendar_render_url = lit "https://calendar.google.com/calendar/render"

abbrev google_tasks_url : Text
google_tasks_url = lit "https://tasks.google.com/tasks/frontend"

-- `date.fromordinal`, which knows no date after the last.
unfoldable pub fromordinal : ℕ → Result Date
fromordinal n = elim (leb n max_ordinal) [
  | true ↦ ok n
  | false ↦ err (value_error (lit "year 10000 is out of range"))
]

unfoldable pub agreed_lines : List Text → List Text
agreed_lines [] = []
agreed_lines (name ∷ names) = (lit "Agreed by: " ++ join (lit ", ") (name ∷ names)) ∷ []

module _ (formats : Formats) where
  open formats use {strftime, isoformat, urlencode}

  unfoldable pub dated_url : Text → Date → Text → List Text → Date → Text
  unfolding agreed_lines
  dated_url title event_date raw_date_text agreed_by end =
      google_calendar_render_url
      ++ (lit "?"
          ++ urlencode (
              (lit "action", lit "TEMPLATE")
              ∷ (lit "text", title)
              ∷ (lit "dates", strftime event_date ++ (lit "/" ++ strftime end))
              ∷ (lit "details", join (0x0A ∷ []) (raw_date_text ∷ agreed_lines agreed_by))
              ∷ []))

  unfoldable pub build_google_calendar_url :
      Text → Option Date → Text → List Text → Result (Option Text)
  unfolding fromordinal dated_url
  build_google_calendar_url title none raw_date_text agreed_by = ok none
  build_google_calendar_url title (some event_date) raw_date_text agreed_by = do
    end ← fromordinal (event_date + 1)
    ok (some (dated_url title event_date raw_date_text agreed_by end))

  unfoldable pub build_google_tasks_url : Text → Option Date → Option Text
  build_google_tasks_url title none = none
  build_google_tasks_url title (some due_date) = some (
      google_tasks_url
      ++ (lit "?" ++ urlencode ((lit "title", title) ∷ (lit "due", isoformat due_date) ∷ [])))
