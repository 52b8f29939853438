-- ===== src/Events/Tests.antt =====
-- The events API at concrete inputs.
use event_creator.Prelude.{
  ℕ, ◌≡◌, refl, true, false, not, ◌&&◌, some, none, List, [], ◌∷◌, ◌++◌, length, take, filter, All,
  ◌==◌, arith,
}
use event_creator.Python.Text.{Text, lit, text_eq, join}
use event_creator.Python.Exception.{ok, err, value_error, http_exception}
use event_creator.Database.{Event}
use event_creator.Database.Actions.{update_where}
use event_creator.Events.Links.{
  Formats, fromordinal, agreed_lines, dated_url, build_google_calendar_url, build_google_tasks_url,
  max_ordinal,
}
use event_creator.Events.{
  EventRead, Table, asc, Filters, Postgres, Dates, date_handler, parse_date_param, like_pattern,
  escaped, of_type, from_date, to_date, found_in, searched, conditions, window, list_user_events,
  list_user_event_types, owned, get_owned_event, to_event_read, to_event_reads, read_events,
  not_found, delete_found, delete_event, reviewed_as, update_found, update_event, mem, dedupe,
  chosen, bulk_result, bulk_delete_events, bulk_review_events,
}
use event_creator.Events.Bulk.{IsSplit, bulk_delete_events-IsSplit, bulk_review_events-IsSplit}
use event_creator.Events.Search.{
  some_end, next_is, is_empty, any_next, like_from, like, contains_same, like_pattern-contains,
}
use event_creator.Events.Answers.{IsLinkable, to_event_reads-IsLinkable}
use event_creator.Events.Pages.{pages, list_user_events-pages}

abbrev event : ℕ → Text → Event
event user_id description = record {
  user_id = user_id;
  run_id = 1;
  kind = lit "plan";
  description = description;
  resolved_date = lit "TBC";
  resolved_date_earliest = none;
  raw_date_text = [];
  agreed_by = [];
  reviewed = false;
}

abbrev table : Table
table =
    record { id = 1; created_at = 5; event = event 7 (lit "a") }
    ∷ record { id = 2; created_at = 6; event = event 8 (lit "b") }
    ∷ record { id = 3; created_at = 6; event = event 7 (lit "c") }
    ∷ []

abbrev database : Postgres
database = record {
  ilike = like (λ c d. c == d);
  json_text = λ names. lit "[]";
  order_by = λ sort rows. rows;
  distinct = λ kinds. take 1 kinds;
}

abbrev dates : Dates
dates = record { fromisoformat = λ t. err (value_error t); repr = λ t. lit "'" ++ (t ++ lit "'") }

abbrev formats : Formats
formats = record {
  strftime = λ d. lit "20260830";
  isoformat = λ d. lit "2026-08-30";
  urlencode = λ p. lit "q";
}

abbrev everything : Filters
everything = record {
  event_type = none;
  date_from = none;
  date_to = none;
  search = none;
  sort = asc;
  show_reviewed = false;
}

bulk_delete_events-IsSplit_example :
    IsSplit table (1 ∷ 2 ∷ 1 ∷ []) 7 (bulk_delete_events table (1 ∷ 2 ∷ 1 ∷ []) 7).0
    × ((bulk_delete_events table (1 ∷ 2 ∷ 1 ∷ []) 7).1
        ≡ filter (λ row. not (mem row.id (1 ∷ 2 ∷ 1 ∷ []) && row.event.user_id == 7)) table)
bulk_delete_events-IsSplit_example = bulk_delete_events-IsSplit table (1 ∷ 2 ∷ 1 ∷ []) 7

bulk_review_events-IsSplit_example :
    IsSplit table (1 ∷ 2 ∷ []) 7 (bulk_review_events table (1 ∷ 2 ∷ []) 7).0
    × ((bulk_review_events table (1 ∷ 2 ∷ []) 7).1
        ≡ update_where
            (λ row. mem row.id (1 ∷ 2 ∷ []) && row.event.user_id == 7)
            (λ row. record row { event = record row.event { reviewed = true } })
            table)
bulk_review_events-IsSplit_example = bulk_review_events-IsSplit table (1 ∷ 2 ∷ []) 7

bulk_delete_test :
    (bulk_delete_events table (1 ∷ 2 ∷ 1 ∷ []) 7).0
    ≡ record { succeeded_ids = 1 ∷ []; failed_ids = 2 ∷ [] }
unfolding bulk_delete_events dedupe bulk_result chosen mem
bulk_delete_test = refl

like_pattern-contains_example :
    database.ilike (like_pattern (lit "50%")) (lit "50 of 100%")
    ≡ contains_same (λ c d. c == d) (lit "50%") (lit "50 of 100%")
like_pattern-contains_example =
    like_pattern-contains (λ c d. c == d) database (λ pattern t. refl) (lit "50%")
      (lit "50 of 100%")

list_user_events-pages_example :
    pages database table 7 everything 1
    ≡ database.order_by asc (filter (conditions database 7 everything) table)
unfolding list_user_events conditions of_type from_date to_date searched
list_user_events-pages_example =
    list_user_events-pages database table 7 everything 1 (λ sort rows. refl) (omega arith)

list_test :
    (list_user_events database table 7 1
      (record everything { event_type = some (lit "plan"); search = some (lit "c") })).1
    ≡ 1
unfolding list_user_events window conditions of_type from_date to_date searched like_pattern escaped
    like found_in like_from some_end next_is is_empty any_next text_eq lit
list_test = refl

types_test : list_user_event_types database table 7 ≡ lit "plan" ∷ []
unfolding list_user_event_types
types_test = refl

read_events_test :
    read_events database dates formats table 7 1 none (some (lit "30/08")) everything
    ≡ err (http_exception 422 (lit "Invalid date: '30/08', expected YYYY-MM-DD"))
unfolding read_events parse_date_param date_handler lit
read_events_test = refl

delete_test : delete_event table 2 7 ≡ err (http_exception 404 (lit "Not Found"))
unfolding delete_event delete_found get_owned_event owned not_found
delete_test = refl

update_test : update_event formats table 3 7 true ≡ (
  ok (record {
    row = reviewed_as true (record { id = 3; created_at = 6; event = event 7 (lit "c") });
    calendar_url = none;
    tasks_url = none;
  }),
  update_where (λ r. r.id == 3) (reviewed_as true) table,
)
unfolding update_event update_found get_owned_event owned to_event_read build_google_calendar_url
    build_google_tasks_url reviewed_as
update_test = refl

-- The last date that Python knows has no link.
last_date_test :
    build_google_calendar_url formats (lit "x") (some max_ordinal) [] []
    ≡ err (value_error (lit "year 10000 is out of range"))
unfolding build_google_calendar_url fromordinal
last_date_test = refl

calendar_test :
    build_google_calendar_url formats (lit "x") (some 739858) (lit "on Sunday") (lit "Ann" ∷ [])
    ≡ ok (some (lit "https://calendar.google.com/calendar/render?q"))
unfolding build_google_calendar_url fromordinal dated_url agreed_lines lit join
calendar_test = refl

to_event_reads-IsLinkable_example :
    ((reads : List EventRead)
      → to_event_reads formats table ≡ ok reads
      → All (λ row. IsLinkable row.event.resolved_date_earliest) table)
    × (All (λ row. IsLinkable row.event.resolved_date_earliest) table
        → (reads : List EventRead) × (to_event_reads formats table ≡ ok reads)
          × (length reads ≡ length table))
to_event_reads-IsLinkable_example = to_event_reads-IsLinkable formats table
