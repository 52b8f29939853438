-- ===== src/DateParser/Tests.antt =====
-- A run of `parse_earliest_date` of app/core/date_parser.py over a small table of dates, and its
-- property there.
use event_creator.Prelude.{◌≡◌, refl, ◌&&◌, Option, some, Bool, true, false, if◌then◌else◌, leb}
use event_creator.Python.Text.{Text, lit, text_eq, split, strip, is_space, lstrip_while}
use event_creator.Python.Date.{Date}
use event_creator.Python.Exception.{Result, ok, err, value_error}
use event_creator.DateParser.{DateLibrary, parse_earliest_date, earliest_of}
use event_creator.DateParser.Earliest.{
  IsUnreadable, IsEarliest, dates_of, parse_earliest_date-IsEarliest,
}

parse_table : Text → Result Date
unfolding text_eq
parse_table t =
    if text_eq t (lit "30 August 2026")
    then ok 739858
    else if text_eq t (lit "29 August 2026")
    then ok 739857
    else err (value_error t)

abbrev table : DateLibrary
table = record { is_digit = λ c. leb 0x30 c && leb c 0x39; parse = parse_table }

table_lem : (t : Text) → IsUnreadable (table.parse t)
unfolding parse_table
table_lem t = known_or_not (text_eq t (lit "30 August 2026")) (text_eq t (lit "29 August 2026"))
  where
    known_or_not :
        (a b : Bool)
        → IsUnreadable (if a then ok 739858 else if b then ok 739857 else err (value_error t))
    known_or_not true b = tt
    known_or_not false true = tt
    known_or_not false false = tt

two_dates :
    parse_earliest_date table (lit "Sunday, 30 August 2026, 29 August 2026") ≡ ok (some 739857)
unfolding parse_earliest_date earliest_of parse_table split strip is_space lstrip_while text_eq lit
two_dates = refl

parse_earliest_date-IsEarliest_example :
    (r : Option Date) × (parse_earliest_date table (lit "Sunday, 30 August 2026, 29 August 2026")
      ≡ ok r)
    × IsEarliest r (dates_of table (split 0x2C (lit "Sunday, 30 August 2026, 29 August 2026")))
parse_earliest_date-IsEarliest_example =
    parse_earliest_date-IsEarliest table table_lem (lit "Sunday, 30 August 2026, 29 August 2026")
