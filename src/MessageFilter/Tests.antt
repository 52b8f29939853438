-- ===== src/MessageFilter/Tests.antt =====
-- Runs of the message filter on small exports, and the properties at concrete inputs.
use event_creator.Prelude.{
  true, false, some, none, ◌≡◌, refl, [], ◌∷◌, map, any, ltb, count_if, if◌then◌else◌, arith,
}
use event_creator.Python.Text.{Text, lit, digit_value, join, splitlines, is_space}
use event_creator.Python.Re.{match, match_re, head_non_space}
use event_creator.Python.Date.{minus_days, make_date}
use event_creator.Python.Exception.{ok}
use event_creator.MessageFilter.Formats.{
  match_line, ios_iso, ios_ambiguous, android_12_hour, android_24_hour,
}
use event_creator.MessageFilter.{
  mdy, dmy, FilterResult, is_some, filter_messages_within_window, filter_dated, parsed_dates,
  parse_line_date, keep_lines, latest, resolve, infer_date_order,
}
use event_creator.MessageFilter.DateOrder.{is_late, true_date, swapped_date}
use event_creator.MessageFilter.Stamps.{slash}
use event_creator.MessageFilter.Window.{
  windowed, filter_messages_within_window-windowed, format_recognised-any,
}
use event_creator.MessageFilter.RoundTrip.{android_24, message_line, match_line-message_line}
use event_creator.MessageFilter.Exports.{
  Sent, Line, sent, other, stamp_in, stamp_in-IsStamp, render, day_of, IsSent, IsLine,
  parsed_dates-mdy, parsed_dates-dmy,
}

match_line_ios_iso :
    match_line (lit "[2026-08-30, 14:12:00] Ann: hi")
    ≡ some (record { a = 8; b = 30; year = 2026; iso = true })
unfolding match_line match match_re ios_iso ios_ambiguous android_12_hour android_24_hour lit
    digit_value is_space head_non_space
match_line_ios_iso = refl

match_line_ios_pm :
    match_line (lit "[30/8/26, 2:12:00 PM] Ann: hi")
    ≡ some (record { a = 30; b = 8; year = 26; iso = false })
unfolding match_line match match_re ios_iso ios_ambiguous android_12_hour android_24_hour lit
    digit_value is_space head_non_space
match_line_ios_pm = refl

match_line_android :
    match_line (lit "8/30/26, 2:12pm - Ann: hi")
    ≡ some (record { a = 8; b = 30; year = 26; iso = false })
unfolding match_line match match_re ios_iso ios_ambiguous android_12_hour android_24_hour lit
    digit_value is_space head_non_space
match_line_android = refl

match_line_android_24 :
    match_line (lit "8.30.2026, 14:12 - Ann: hi")
    ≡ some (record { a = 8; b = 30; year = 2026; iso = false })
unfolding match_line match match_re ios_iso ios_ambiguous android_12_hour android_24_hour lit
    digit_value is_space head_non_space
match_line_android_24 = refl

match_line_body : match_line (lit "12/25/26 is Christmas") ≡ none
unfolding match_line match match_re ios_iso ios_ambiguous android_12_hour android_24_hour lit
    digit_value is_space head_non_space
match_line_body = refl

filter_test :
    filter_messages_within_window
      (lit
        "header\n8/1/26, 10:00 - Ann: old\n8/20/26, 10:00 - Bob: newer\nmore\n8/22/26, 10:00 - Ann: x")
      7
      none
    ≡ ok (record {
      text = lit "header\n8/20/26, 10:00 - Bob: newer\nmore\n8/22/26, 10:00 - Ann: x";
      format_recognised = true;
    })
unfolding filter_messages_within_window filter_dated parsed_dates keep_lines latest resolve
    infer_date_order match_line match match_re ios_iso ios_ambiguous android_12_hour android_24_hour
    head_non_space minus_days make_date splitlines join lit digit_value is_space
filter_test = refl

-- The properties at concrete inputs.
abbrev short_export : Text
short_export =
    lit "8/1/26, 10:00 - Ann: old\n8/20/26, 10:00 - Bob: newer\nmore\n8/22/26, 10:00 - Ann: x"

filter_messages_within_window-windowed_example :
    filter_messages_within_window short_export 7 none ≡ ok (windowed short_export 7)
filter_messages_within_window-windowed_example =
    filter_messages_within_window-windowed short_export 7 (omega arith)

abbrev kept_export : FilterResult
kept_export = record {
  text = lit "8/20/26, 10:00 - Bob: newer\nmore\n8/22/26, 10:00 - Ann: x";
  format_recognised = true;
}

filter_short_export : filter_messages_within_window short_export 7 none ≡ ok kept_export
unfolding filter_messages_within_window filter_dated parsed_dates keep_lines latest resolve
    infer_date_order match_line match match_re ios_iso ios_ambiguous android_12_hour android_24_hour
    head_non_space minus_days make_date splitlines join lit digit_value is_space
filter_short_export = refl

format_recognised-any_example : true ≡ any is_some (map match_line (splitlines short_export))
format_recognised-any_example = format_recognised-any short_export 7 none filter_short_export

-- 8/13/26, 10:00 - Ann: hi
abbrev thirteenth : Sent
thirteenth = record {
  style = android_24;
  separator = slash;
  day = record { month = 8; day = 13; year = 2026 };
  hour = 10;
  minute = 0;
  initial = 0x41;
  rest = lit "nn: hi";
}

abbrev second_line : Line
second_line = other (lit "see you there")

thirteenth-IsSent : IsSent thirteenth
unfolding is_space
thirteenth-IsSent = record {
  month_small = omega arith;
  day_small = omega arith;
  year_from = omega arith;
  year_to = omega arith;
  hour_small = omega arith;
  minute_small = omega arith;
  seconds_small = tt;
  sender = refl;
}

second_line-IsLine : IsLine second_line
unfolding match_line match match_re ios_iso ios_ambiguous android_12_hour android_24_hour lit
    digit_value is_space head_non_space
second_line-IsLine = refl

match_line-message_line_example :
    match_line (message_line android_24 slash (stamp_in mdy thirteenth) 0x41 (lit "nn: hi"))
    ≡ some (record { a = 8; b = 13; year = 26; iso = false })
match_line-message_line_example =
    match_line-message_line slash (stamp_in mdy thirteenth) 0x41 (lit "nn: hi")
      (stamp_in-IsStamp mdy thirteenth thirteenth-IsSent) thirteenth-IsSent.sender android_24 tt

parsed_dates-mdy_example :
    parsed_dates (map (render mdy) (sent thirteenth ∷ second_line ∷ []))
    ≡ map true_date (map day_of (sent thirteenth ∷ second_line ∷ []))
parsed_dates-mdy_example =
    parsed_dates-mdy (sent thirteenth ∷ second_line ∷ [])
      (thirteenth-IsSent, (second_line-IsLine, tt))

parsed_dates-dmy_example : parsed_dates (map (render dmy) (sent thirteenth ∷ second_line ∷ [])) ≡ (
    if ltb 0 (count_if is_late (map day_of (sent thirteenth ∷ second_line ∷ [])))
    then map true_date (map day_of (sent thirteenth ∷ second_line ∷ []))
    else map swapped_date (map day_of (sent thirteenth ∷ second_line ∷ [])))
parsed_dates-dmy_example =
    parsed_dates-dmy (sent thirteenth ∷ second_line ∷ [])
      (thirteenth-IsSent, (second_line-IsLine, tt))

line_date_dmy : parse_line_date (lit "13/8/26, 10:00 - Ann: hi") dmy ≡ make_date 2026 8 13
unfolding parse_line_date resolve match_line match match_re ios_iso ios_ambiguous android_12_hour
    android_24_hour head_non_space make_date lit digit_value is_space
line_date_dmy = refl
