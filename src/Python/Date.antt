-- ===== src/Python/Date.antt =====
-- Python's `datetime.date`. A date is its proleptic Gregorian ordinal (`date.toordinal`), day 1
-- being 1 January of year 1: Python orders dates as their ordinals are ordered.
use event_creator.Prelude.{
  ℕ, ◌+◌, ◌-◌, ◌*◌, ◌/◌, ◌%◌, ◌≡◌, refl, Bool, ◌&&◌, ◌||◌, not, Option, none, some, ltb, leb, ◌==◌,
  if◌then◌else◌,
}

abbrev pub Date : Type 0
Date = ℕ

unfoldable pub is_leap : ℕ → Bool
is_leap y = y % 4 == 0 && (not (y % 100 == 0) || y % 400 == 0)

unfoldable pub days_in_month : ℕ → ℕ → ℕ
unfolding is_leap
days_in_month y m =
    if m == 2
    then (if is_leap y then 29 else 28)
    else if m == 4 || m == 6 || m == 9 || m == 11
    then 30
    else 31

-- The days of the year before the month, in a year that is not a leap year.
unfoldable pub days_before_month : ℕ → ℕ
days_before_month m =
    if m == 1
    then 0
    else if m == 2
    then 31
    else if m == 3
    then 59
    else if m == 4
    then 90
    else if m == 5
    then 120
    else if m == 6
    then 151
    else if m == 7
    then 181
    else if m == 8
    then 212
    else if m == 9
    then 243
    else if m == 10
    then 273
    else if m == 11
    then 304
    else 334

unfoldable pub days_before_year : ℕ → ℕ
days_before_year y = (y - 1) * 365 + (y - 1) / 4 - (y - 1) / 100 + (y - 1) / 400

unfoldable pub to_ordinal : ℕ → ℕ → ℕ → ℕ
unfolding days_before_year days_before_month is_leap
to_ordinal y m d =
    days_before_year y + days_before_month m + (if ltb 2 m && is_leap y then 1 else 0) + d

-- `date(y, m, d)`; `none` is the `ValueError`.
unfoldable pub make_date : ℕ → ℕ → ℕ → Option Date
unfolding to_ordinal days_in_month
make_date y m d =
    if leb 1 y && leb y 9999 && leb 1 m && leb m 12 && leb 1 d && leb d (days_in_month y m)
    then some (to_ordinal y m d)
    else none

-- `date - timedelta(days=n)`; `none` is the `OverflowError` below `date.min`.
unfoldable pub minus_days : Date → ℕ → Option Date
minus_days d n = if ltb n d then some (d - n) else none

make_date_test : make_date 2026 8 30 ≡ some 739858
unfolding make_date
make_date_test = refl
