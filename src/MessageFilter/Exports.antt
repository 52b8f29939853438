-- ===== src/MessageFilter/Exports.antt =====
-- Whole exports as a phone writes them, in one day and month order, and the dates that the message
-- filter (app/core/message_filter.py) finds in their lines.
use event_creator.Prelude.{
  ℕ, ◌≤◌, ◌<◌, ◌≡◌, refl, ◌%◌, ap₂, ◌∙◌, false, Option, none, some, List, [], ◌∷◌, All, map, ltb,
  count_if, if◌then◌else◌, arith,
}
use event_creator.Python.Text.{Text, is_space}
use event_creator.MessageFilter.Formats.{match_line}
use event_creator.MessageFilter.{Order, mdy, dmy, parsed_dates}
use event_creator.MessageFilter.DateOrder.{
  Day, IsWritable, is_late, written, true_date, swapped_date, read_back, read_back-mdy,
  read_back-dmy,
}
use event_creator.MessageFilter.Stamps.{Stamp, IsStamp, Separator}
use event_creator.MessageFilter.RoundTrip.{Style, HasSeconds, message_line, match_line-message_line}

-- A message's first line; its continuation lines are `other`.
pub record Sent : Type 0 where
  pub style : Style
  pub separator : Separator
  pub day : Day
  pub hour : ℕ
  pub minute : ℕ
  pub initial : ℕ
  pub rest : Text

pub data Line : Type 0 where
  sent : Sent → Line
  other : Text → Line

abbrev pub stamp_in : Order → Sent → Stamp
stamp_in mdy m = record {
  first = m.day.month;
  second = m.day.day;
  year = m.day.year % 100;
  hour = m.hour;
  minute = m.minute;
}
stamp_in dmy m = record {
  first = m.day.day;
  second = m.day.month;
  year = m.day.year % 100;
  hour = m.hour;
  minute = m.minute;
}

pub render : Order → Line → Text
render order (sent m) = message_line m.style m.separator (stamp_in order m) m.initial m.rest
render order (other t) = t

pub day_of : Line → Option Day
day_of (sent m) = some m.day
day_of (other t) = none

-- Numbers in the digits that a phone gives them, a year from 1969 to 2068, which the phone writes in two
-- digits, a sender who does not start with a space, and other
-- lines that do not look like the start of a message.
pub record IsSent (m : Sent) : Type 0 where
  pub month_small : m.day.month ≤ 12
  pub day_small : m.day.day < 100
  pub year_from : 1969 ≤ m.day.year
  pub year_to : m.day.year ≤ 2068
  pub hour_small : m.hour < 100
  pub minute_small : m.minute < 100
  pub seconds_small : HasSeconds m.style
  pub sender : is_space m.initial ≡ false

abbrev pub IsLine : Line → Type 0
IsLine (sent m) = IsSent m
IsLine (other t) = match_line t ≡ none

pub stamp_in-IsStamp : (order : Order) (m : Sent) → IsSent m → IsStamp (stamp_in order m)
stamp_in-IsStamp mdy m h = omega arith
stamp_in-IsStamp dmy m h = omega arith

match_line-render :
    (order : Order) (line : Line)
    → IsLine line
    → match_line (render order line) ≡ written order (day_of line)
unfolding render day_of written
match_line-render mdy (sent m) h =
    match_line-message_line m.separator (stamp_in mdy m) m.initial m.rest (stamp_in-IsStamp mdy m h)
      h.sender m.style h.seconds_small
match_line-render dmy (sent m) h =
    match_line-message_line m.separator (stamp_in dmy m) m.initial m.rest (stamp_in-IsStamp dmy m h)
      h.sender m.style h.seconds_small
match_line-render order (other t) h = h

match_lines-render :
    (order : Order) (lines : List Line)
    → All IsLine lines
    → map match_line (map (render order) lines) ≡ map (written order) (map day_of lines)
match_lines-render order [] h = refl
match_lines-render order (line ∷ lines) h =
    ap₂ (λ d ds. d ∷ ds) (match_line-render order line h.0) (match_lines-render order lines h.1)

IsWritable-day_of : (lines : List Line) → All IsLine lines → All IsWritable (map day_of lines)
unfolding day_of
IsWritable-day_of [] h = tt
IsWritable-day_of (sent m ∷ lines) h =
    ((h.0.month_small, h.0.year_from, h.0.year_to), IsWritable-day_of lines h.1)
IsWritable-day_of (other t ∷ lines) h = (tt, IsWritable-day_of lines h.1)

parsed_dates-read_back :
    (order : Order) (lines : List Line)
    → All IsLine lines
    → parsed_dates (map (render order) lines) ≡ read_back order (map day_of lines)
unfolding parsed_dates read_back
parsed_dates-read_back order lines h = rw (match_lines-render order lines h)

-- The lines of an export that a phone wrote month first, in any mix of the four styles and the three
-- separators, get exactly the dates that the messages were sent on, with the century of the year, which
-- the phone does not write, restored for the years from 1969 to 2068.
pub parsed_dates-mdy :
    (lines : List Line)
    → All IsLine lines
    → parsed_dates (map (render mdy) lines) ≡ map true_date (map day_of lines)
parsed_dates-mdy lines h =
    parsed_dates-read_back mdy lines h
    ∙ read_back-mdy (map day_of lines) (IsWritable-day_of lines h)

-- The lines of an export that a phone wrote day first get exactly the dates that the messages were
-- sent on if some message was sent after the 12th of a month; if none was, each date is taken with its
-- day and month exchanged. The years are from 1969 to 2068, written in two digits.
pub parsed_dates-dmy :
    (lines : List Line)
    → All IsLine lines
    → parsed_dates (map (render dmy) lines) ≡ (
        if ltb 0 (count_if is_late (map day_of lines))
        then map true_date (map day_of lines)
        else map swapped_date (map day_of lines))
parsed_dates-dmy lines h =
    parsed_dates-read_back dmy lines h
    ∙ read_back-dmy (map day_of lines) (IsWritable-day_of lines h)
