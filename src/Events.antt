-- ===== src/Events.antt =====
-- app/api/v1/events.py and app/core/calendar_url.py: the events table of a user, listed by pages, and
-- the actions on single events and on sets of them.
pub mod Links
pub mod Bulk
pub mod Search
pub mod Pages
pub mod Answers
pub mod Tests
use event_creator.Prelude.{
  ℕ, zero, suc, ◌+◌, ◌-◌, ◌*◌, Bool, true, false, not, ◌&&◌, ◌||◌, Option, none, some, List, [],
  ◌∷◌, ◌++◌, map, length, take, drop, filter, any, leb, ◌==◌, if◌then◌else◌,
}
use event_creator.Python.Text.{Text, lit, text_eq}
use event_creator.Python.Date.{Date}
use event_creator.Python.Exception.{Exception, Result, ok, err, ◌>>=◌, value_error, http_exception}
use event_creator.Database.{Event}
use event_creator.Database.Actions.{find_where, update_where}
use event_creator.Events.Links.{Formats, build_google_calendar_url, build_google_tasks_url}

-- A row of the table, with the columns that only these requests read.
pub record EventRow : Type 0 where
  pub id : ℕ
  pub created_at : ℕ
  pub event : Event

abbrev pub Table : Type 0
Table = List EventRow

-- `PAGE_SIZE`
abbrev pub page_size : ℕ
page_size = 50

pub data SortOrder : Type 0 where
  asc desc : SortOrder

-- The filters of a listing.
pub record Filters : Type 0 where
  pub event_type : Option Text
  pub date_from : Option Date
  pub date_to : Option Date
  pub search : Option Text
  pub sort : SortOrder
  pub show_reviewed : Bool

-- What the database is asked to do: `ILIKE` with a backslash as escape, the text of a JSON array, the
-- rows in an order that `ORDER BY` allows, and distinct values in order.
pub record Postgres : Type 0 where
  pub ilike : Text → Text → Bool
  pub json_text : List Text → Text
  pub order_by : SortOrder → Table → Table
  pub distinct : List Text → List Text

-- `date.fromisoformat` and `repr`
pub record Dates : Type 0 where
  pub fromisoformat : Text → Result Date
  pub repr : Text → Text

unfoldable pub date_handler : (Text → Text) → Text → Result Date → Result (Option Date)
date_handler repr value (ok d) = ok (some d)
date_handler repr value (err (value_error t)) =
    err (http_exception 422 (lit "Invalid date: " ++ (repr value ++ lit ", expected YYYY-MM-DD")))
date_handler repr value (err e) = err e

-- An empty parameter counts as unset.
unfoldable pub parse_date_param : Dates → Option Text → Result (Option Date)
unfolding date_handler
parse_date_param dates none = ok none
parse_date_param dates (some []) = ok none
parse_date_param dates (some (c ∷ t)) =
    date_handler dates.repr (c ∷ t) (dates.fromisoformat (c ∷ t))

-- The replacements of the metacharacters, the backslash first.
unfoldable pub escaped : Text → Text
escaped [] = []
escaped (c ∷ t) =
    let rest = escaped t in
    if c == 0x5C || c == 0x25 || c == 0x5F then 0x5C ∷ c ∷ rest else c ∷ rest

unfoldable pub like_pattern : Text → Text
unfolding escaped
like_pattern search = 0x25 ∷ (escaped search ++ 0x25 ∷ [])

-- A condition that is only added where its parameter is neither `None` nor empty.
of_type : Option Text → Event → Bool
of_type none e = true
of_type (some []) e = true
of_type (some (c ∷ t)) e = text_eq e.kind (c ∷ t)

-- A comparison with NULL is not true.
from_date : Option Date → Option Date → Bool
from_date none d = true
from_date (some from) none = false
from_date (some from) (some d) = leb from d

to_date : Option Date → Option Date → Bool
to_date none d = true
to_date (some to) none = false
to_date (some to) (some d) = leb d to

pub window : ℕ → Table → Table
window page rows = take page_size (drop ((page - 1) * page_size) rows)

module _ (database : Postgres) where
  -- The four columns that a search looks through.
  unfoldable pub found_in : Text → Event → Bool
  found_in pattern e =
      database.ilike pattern e.kind
      || (database.ilike pattern e.description
          || (database.ilike pattern e.raw_date_text
              || database.ilike pattern (database.json_text e.agreed_by)))

  unfoldable pub searched : Option Text → Event → Bool
  unfolding found_in like_pattern
  searched none e = true
  searched (some []) e = true
  searched (some (c ∷ t)) e = found_in (like_pattern (c ∷ t)) e

  pub conditions : ℕ → Filters → EventRow → Bool
  unfolding of_type from_date to_date searched
  conditions user_id filters row =
      row.event.user_id == user_id
      && ((filters.show_reviewed || not row.event.reviewed)
          && (of_type filters.event_type row.event
              && (from_date filters.date_from row.event.resolved_date_earliest
                  && (to_date filters.date_to row.event.resolved_date_earliest
                      && searched filters.search row.event))))

  -- The rows of one page, and how many rows the filters leave.
  pub list_user_events : Table → ℕ → ℕ → Filters → Table × ℕ
  unfolding window
  list_user_events table user_id page filters =
      let kept = filter (conditions user_id filters) table in
      (window page (database.order_by filters.sort kept), length kept)

  pub list_user_event_types : Table → ℕ → List Text
  list_user_event_types table user_id =
      database.distinct
        (map (λ row. row.event.kind) (filter (λ row. row.event.user_id == user_id) table))

owned : ℕ → ℕ → EventRow → Bool
owned event_id user_id row = row.id == event_id && row.event.user_id == user_id

pub get_owned_event : Table → ℕ → ℕ → Option EventRow
unfolding owned
get_owned_event table event_id user_id = find_where (owned event_id user_id) table

-- `EventRead`
pub record EventRead : Type 0 where
  pub row : EventRow
  pub calendar_url : Option Text
  pub tasks_url : Option Text

unfoldable pub to_event_read : Formats → EventRow → Result EventRead
to_event_read formats row = do
  calendar_url ←
      build_google_calendar_url formats row.event.description row.event.resolved_date_earliest
        row.event.raw_date_text row.event.agreed_by
  ok (record {
    row = row;
    calendar_url = calendar_url;
    tasks_url =
        build_google_tasks_url formats row.event.description row.event.resolved_date_earliest;
  })

unfoldable pub to_event_reads : Formats → Table → Result (List EventRead)
to_event_reads formats [] = ok []
to_event_reads formats (row ∷ rows) =
    let rest = to_event_reads formats rows in
    to_event_read formats row >>= λ read. rest >>= λ reads. ok (read ∷ reads)

-- `EventListRead`
pub record EventListRead : Type 0 where
  pub events : List EventRead
  pub page : ℕ
  pub total : ℕ

-- The query parameters, with the dates as texts.
pub read_events :
    Postgres
    → Dates
    → Formats
    → Table
    → ℕ
    → ℕ
    → Option Text
    → Option Text
    → Filters
    → Result EventListRead
read_events database dates formats table user_id page date_from date_to filters = do
  from ← parse_date_param dates date_from
  to ← parse_date_param dates date_to
  let listed =
      list_user_events database table user_id page
        (record filters { date_from = from; date_to = to })
  reads ← to_event_reads formats listed.0
  ok (record { events = reads; page = page; total = listed.1 })

not_found : {A : Type 0} → Result A
not_found = err (http_exception 404 (lit "Not Found"))

delete_found : Table → ℕ → Option EventRow → Result Table
unfolding not_found
delete_found table event_id none = not_found
delete_found table event_id (some row) = ok (filter (λ r. not (r.id == event_id)) table)

-- `delete_event`, which gives the table that it leaves.
pub delete_event : Table → ℕ → ℕ → Result Table
unfolding delete_found
delete_event table event_id user_id =
    delete_found table event_id (get_owned_event table event_id user_id)

unfoldable pub reviewed_as : Bool → EventRow → EventRow
reviewed_as reviewed row = record row { event = record (row.event) { reviewed = reviewed } }

-- The flag is committed before the answer is built.
update_found : Formats → Table → ℕ → Bool → Option EventRow → Result EventRead × Table
unfolding not_found reviewed_as
update_found formats table event_id reviewed none = (not_found, table)
update_found formats table event_id reviewed (some row) = (
  to_event_read formats (reviewed_as reviewed row),
  update_where (λ r. r.id == event_id) (reviewed_as reviewed) table,
)

pub update_event : Formats → Table → ℕ → ℕ → Bool → Result EventRead × Table
unfolding update_found
update_event formats table event_id user_id reviewed =
    update_found formats table event_id reviewed (get_owned_event table event_id user_id)

unfoldable pub mem : ℕ → List ℕ → Bool
mem id ids = any (λ i. i == id) ids

-- `list(dict.fromkeys(ids))`: the first of each, `seen` being those before.
unfoldable pub dedupe : List ℕ → List ℕ → List ℕ
unfolding mem
dedupe seen [] = []
dedupe seen (id ∷ ids) =
    let rest = dedupe (id ∷ seen) ids in
    let again = dedupe seen ids in if mem id seen then again else id ∷ rest

-- `BulkActionResult`
pub record BulkActionResult : Type 0 where
  pub succeeded_ids : List ℕ
  pub failed_ids : List ℕ

-- The condition of the statement.
unfoldable pub chosen : List ℕ → ℕ → EventRow → Bool
unfolding mem
chosen requested user_id row = mem row.id requested && row.event.user_id == user_id

unfoldable pub bulk_result : Table → List ℕ → ℕ → BulkActionResult
unfolding chosen mem
bulk_result table requested user_id =
    let succeeded = map (λ row. row.id) (filter (chosen requested user_id) table) in
    record {
      succeeded_ids = succeeded;
      failed_ids = filter (λ id. not (mem id succeeded)) requested;
    }

-- One statement deletes the rows and returns their identifiers.
unfoldable pub bulk_delete_events : Table → List ℕ → ℕ → BulkActionResult × Table
unfolding dedupe bulk_result chosen
bulk_delete_events table event_ids user_id =
    let requested = dedupe [] event_ids in
    (bulk_result table requested user_id, filter (λ row. not (chosen requested user_id row)) table)

unfoldable pub bulk_review_events : Table → List ℕ → ℕ → BulkActionResult × Table
unfolding dedupe bulk_result chosen reviewed_as
bulk_review_events table event_ids user_id =
    let requested = dedupe [] event_ids in
    (
      bulk_result table requested user_id,
      update_where (chosen requested user_id) (reviewed_as true) table,
    )
