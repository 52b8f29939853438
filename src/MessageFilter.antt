-- ===== src/MessageFilter.antt =====
-- app/core/message_filter.py: keep the messages of the last days of a WhatsApp export. The line
-- patterns and `_match_line` stand in the child `Formats`.
pub mod Formats
pub mod Messages
pub mod Window
pub mod DateOrder
pub mod Stamps
pub mod RoundTrip
pub mod Exports
pub mod Tests
use event_creator.Prelude.{
  ℕ, ◌+◌, Bool, true, false, not, ◌&&◌, ◌||◌, Option, none, some, List, [], ◌∷◌, map, any, count_if,
  somes, ltb, leb, if◌then◌else◌,
}
use event_creator.Python.Text.{Text, lit, join, splitlines}
use event_creator.Python.Date.{Date, make_date, minus_days}
use event_creator.Python.Exception.{Result, ok, err, overflow_error}
use event_creator.MessageFilter.Formats.{LineDate, match_line}

pub data Order : Type 0 where
  mdy dmy : Order

pub record FilterResult : Type 0 where
  pub text : Text
  pub format_recognised : Bool

normalise_year : ℕ → ℕ
normalise_year year =
    if leb 100 year then year else if ltb year 69 then 2000 + year else 1900 + year

-- A line that can only be day first; only month first.
abbrev pub votes_dmy : Option LineDate → Bool
votes_dmy none = false
votes_dmy (some ld) = not ld.iso && ltb 12 ld.a

abbrev pub votes_mdy : Option LineDate → Bool
votes_mdy none = false
votes_mdy (some ld) = not ld.iso && ltb 12 ld.b

pub infer_date_order : List (Option LineDate) → Order
infer_date_order line_dates =
    if ltb (count_if votes_mdy line_dates) (count_if votes_dmy line_dates) then dmy else mdy

is_mdy : Order → Bool
is_mdy mdy = true
is_mdy dmy = false

pub resolve : Order → Option LineDate → Option Date
unfolding normalise_year is_mdy
resolve order none = none
resolve order (some ld) =
    if ld.iso || is_mdy order
    then make_date (normalise_year ld.year) ld.a ld.b
    else make_date (normalise_year ld.year) ld.b ld.a

-- `_parse_line_date`
pub parse_line_date : Text → Order → Option Date
parse_line_date line order = resolve order (match_line line)

-- `max(dated)` of a list that is not empty, given as its head and tail.
pub latest : Date → List Date → Date
latest d [] = d
latest d (e ∷ es) = latest (if ltb d e then e else d) es

-- `cutoff < line_date <= effective_anchor`
abbrev pub in_window : Date → Date → Date → Bool
in_window cutoff anchor d = ltb cutoff d && leb d anchor

abbrev keep_current : Date → Date → Bool → Option Date → Bool
keep_current cutoff anchor keep none = keep
keep_current cutoff anchor keep (some d) = in_window cutoff anchor d

-- The loop over `zip(lines, parsed)`; `keep` is `keep_current` before the next line.
pub keep_lines : Date → Date → Bool → List Text → List (Option Date) → List Text
keep_lines cutoff anchor keep [] parsed = []
keep_lines cutoff anchor keep (line ∷ lines) [] = []
keep_lines cutoff anchor keep (line ∷ lines) (d ∷ parsed) =
    let keep' = keep_current cutoff anchor keep d in
    let rest = keep_lines cutoff anchor keep' lines parsed in
    elim keep' [ true ↦ line ∷ rest | false ↦ rest ]

abbrev pub is_some : Option LineDate → Bool
is_some none = false
is_some (some _) = true

abbrev effective_anchor : Option Date → Date → List Date → Date
effective_anchor none d ds = latest d ds
effective_anchor (some a) d ds = a

-- From `effective_anchor = …` on, with the dates that resolved.
filter_dated :
    ℕ → Option Date → List Text → List (Option Date) → Date → List Date → Result FilterResult
filter_dated window_days anchor lines parsed d ds =
    let newest = effective_anchor anchor d ds in
    elim (minus_days newest window_days) [
      | none ↦ err (overflow_error (lit "date value out of range"))
      | some cutoff ↦ ok (record {
        text = join (lit "\n") (keep_lines cutoff newest true lines parsed);
        format_recognised = true;
      })
    ]

-- The dates of the lines, under the order that the whole file votes for.
pub parsed_dates : List Text → List (Option Date)
parsed_dates lines =
    let line_dates = map match_line lines in map (resolve (infer_date_order line_dates)) line_dates

pub filter_messages_within_window : Text → ℕ → Option Date → Result FilterResult
filter_messages_within_window conversation window_days anchor =
    let lines = splitlines conversation in
    let parsed = parsed_dates lines in
    elim (somes parsed) [
      | [] ↦
          ok
            (record { text = conversation; format_recognised = any is_some (map match_line lines) })
      | d ∷ ds ↦ filter_dated window_days anchor lines parsed d ds
    ]
