-- ===== src/MessageFilter/Window.antt =====
-- What `filter_messages_within_window` of app/core/message_filter.py keeps of an export.
use event_creator.Prelude.{
  ℕ, ◌-◌, ◌≤◌, ◌<◌, ◌≡◌, refl, ap, sym, ◌∙◌, true, Option, none, some, List, [], ◌∷◌, ◌++◌, All,
  map, any, somes, arith,
}
use event_creator.Python.Text.{Text, lit, join, splitlines}
use event_creator.Python.Date.{Date, make_date, minus_days}
use event_creator.Python.Exception.{ok}
use event_creator.MessageFilter.Formats.{LineDate, match_line}
use event_creator.MessageFilter.{
  Order, FilterResult, latest, is_some, normalise_year, resolve, infer_date_order, keep_lines,
  parsed_dates, filter_dated, filter_messages_within_window,
}
use event_creator.MessageFilter.Messages.{
  export, recent, keep_lines-export, recent-eq, All-export, latest_max,
}

-- A date of the four-digit years that the pivot gives is far from `date.min`.
late_date : (y m d : ℕ) {o : Date} → 100 ≤ y → make_date y m d ≡ some o → 36160 ≤ o
unfolding make_date
late_date y m d h e = ground arith

normalise_year_ge : (year : ℕ) → 100 ≤ normalise_year year
unfolding normalise_year
normalise_year_ge year = ground arith

resolve_late :
    (order : Order) (ld : Option LineDate) {o : Date} → resolve order ld ≡ some o → 36160 ≤ o
unfolding resolve
resolve_late order none e = ground arith
resolve_late order (some ld) {o} e = ground (
  arith,
  normalise_year_ge ld.year,
  late_date (normalise_year ld.year) ld.a ld.b {o = o},
  late_date (normalise_year ld.year) ld.b ld.a {o = o},
)

cons_late :
    (o : Option Date) (os : List (Option Date))
    → ((d : Date) → o ≡ some d → 36160 ≤ d)
    → All (λ d. 36160 ≤ d) (somes os)
    → All (λ d. 36160 ≤ d) (somes (o ∷ os))
cons_late none os h hs = hs
cons_late (some d) os h hs = (h d refl, hs)

somes_late :
    (order : Order) (lds : List (Option LineDate))
    → All (λ o. 36160 ≤ o) (somes (map (resolve order) lds))
somes_late order [] = tt
somes_late order (ld ∷ lds) =
    cons_late (resolve order ld) (map (resolve order) lds) (λ d e. resolve_late order ld e)
      (somes_late order lds)

-- The specification: no window where no date resolves, else the header and the recent messages.
pub windowed : Text → ℕ → FilterResult
windowed conversation window_days =
    let lines = splitlines conversation in
    let parsed = parsed_dates lines in
    let e = export lines parsed in
    elim (somes parsed) [
      | [] ↦ record { text = conversation; format_recognised = any is_some (map match_line lines) }
      | d ∷ ds ↦ record {
        text = join (lit "\n") (e.header ++ recent (latest d ds) window_days e.messages);
        format_recognised = true;
      }
    ]

parsed_late : (lines : List Text) → All (λ o. 36160 ≤ o) (somes (parsed_dates lines))
unfolding parsed_dates
parsed_late lines = let lds = map match_line lines in somes_late (infer_date_order lds) lds

-- A window that the oldest possible date can hold does not overflow.
minus_days-some :
    (newest window_days : ℕ)
    → window_days < newest
    → minus_days newest window_days ≡ some (newest - window_days)
unfolding minus_days
minus_days-some newest window_days h = ground arith

kept_eq :
    (lines : List Text) (parsed : List (Option Date)) (d : Date) (ds : List Date)
    (cutoff window_days : ℕ)
    → somes parsed ≡ d ∷ ds
    → minus_days (latest d ds) window_days ≡ some cutoff
    → keep_lines cutoff (latest d ds) true lines parsed
      ≡ (export lines parsed).header
        ++ recent (latest d ds) window_days (export lines parsed).messages
kept_eq lines parsed d ds cutoff window_days e m =
    keep_lines-export cutoff (latest d ds) true lines parsed
    ∙ ap (λ l. (export lines parsed).header ++ l)
        (recent-eq (latest d ds) window_days cutoff (export lines parsed).messages m
          (All-export (λ o. o ≤ latest d ds) lines parsed (rw e (latest_max d ds))))

filter_dated_lem :
    (lines : List Text) (parsed : List (Option Date)) (d : Date) (ds : List Date) (window_days : ℕ)
    → somes parsed ≡ d ∷ ds
    → window_days < latest d ds
    → filter_dated window_days none lines parsed d ds
      ≡ ok (record {
        text = join (lit "\n") (
            (export lines parsed).header
            ++ recent (latest d ds) window_days (export lines parsed).messages);
        format_recognised = true;
      })
unfolding filter_dated
filter_dated_lem lines parsed d ds window_days e h =
    let m = minus_days-some (latest d ds) window_days h in
    rw (m, filter_dated)
      (ap (λ l. ok (record { text = join (lit "\n") l; format_recognised = true }))
        (kept_eq lines parsed d ds (latest d ds - window_days) window_days e m))

module _ (conversation : Text) (window_days : ℕ) (short : window_days ≤ 36159) where
  dates_case :
      (dates : List Date)
      → somes (parsed_dates (splitlines conversation)) ≡ dates
      → filter_messages_within_window conversation window_days none
        ≡ ok (windowed conversation window_days)
  unfolding filter_messages_within_window windowed
  dates_case [] e = rw (e, filter_messages_within_window, windowed)
  dates_case (d ∷ ds) e =
      rw (e, filter_messages_within_window, windowed)
        (let late : All (λ o. 36160 ≤ o) (d ∷ ds) =
            rw e at (parsed_late (splitlines conversation)) in
          filter_dated_lem (splitlines conversation) (parsed_dates (splitlines conversation)) d ds
            window_days e (omega (arith, short, late.0, (latest_max d ds).0)))

  -- With a window of at most 36159 days and the default anchor the filter always returns, and what it
  -- returns is the specification: the conversation unchanged where no line resolves to a date, else
  -- the header lines and, in order, every line of every message whose date is less than
  -- `window_days` before the newest date of the file, with `format_recognised` as in the code.
  pub filter_messages_within_window-windowed :
      filter_messages_within_window conversation window_days none
      ≡ ok (windowed conversation window_days)
  filter_messages_within_window-windowed =
      dates_case (somes (parsed_dates (splitlines conversation))) refl

-- A line that resolves to a date matched a format.
resolves_matched :
    (order : Order) (lds : List (Option LineDate)) {d : Date} {ds : List Date}
    → somes (map (resolve order) lds) ≡ d ∷ ds
    → any is_some lds ≡ true
unfolding resolve
resolves_matched order [] e = cc
resolves_matched order (none ∷ lds) e = resolves_matched order lds e
resolves_matched order (some ld ∷ lds) e = refl

filter_dated-recognised :
    (window_days : ℕ) (anchor : Option Date) (lines : List Text) (parsed : List (Option Date))
    (d : Date) (ds : List Date) {r : FilterResult}
    → filter_dated window_days anchor lines parsed d ds ≡ ok r
    → r.format_recognised ≡ true
unfolding filter_dated
filter_dated-recognised window_days none lines parsed d ds h = ground arith
filter_dated-recognised window_days (some a) lines parsed d ds h = ground arith

matched :
    (lines : List Text) (d : Date) (ds : List Date)
    → somes (parsed_dates lines) ≡ d ∷ ds
    → any is_some (map match_line lines) ≡ true
unfolding parsed_dates
matched lines d ds e =
    resolves_matched (infer_date_order (map match_line lines)) (map match_line lines) e

module _ (conversation : Text) (window_days : ℕ) (anchor : Option Date) {r : FilterResult} where
  recognised_case :
      (dates : List Date)
      → somes (parsed_dates (splitlines conversation)) ≡ dates
      → filter_messages_within_window conversation window_days anchor ≡ ok r
      → r.format_recognised ≡ any is_some (map match_line (splitlines conversation))
  unfolding filter_messages_within_window
  recognised_case [] e h = let h' = rw (e, filter_messages_within_window) at h in ground arith
  recognised_case (d ∷ ds) e h =
      let h' = rw (e, filter_messages_within_window) at h in
      filter_dated-recognised window_days anchor (splitlines conversation)
        (parsed_dates (splitlines conversation)) d ds h'
      ∙ sym (matched (splitlines conversation) d ds e)

  -- Whatever the window and the anchor, a result of the filter has `format_recognised` true exactly
  -- when some line of the conversation matches a timestamp format.
  pub format_recognised-any :
      filter_messages_within_window conversation window_days anchor ≡ ok r
      → r.format_recognised ≡ any is_some (map match_line (splitlines conversation))
  format_recognised-any = recognised_case (somes (parsed_dates (splitlines conversation))) refl
