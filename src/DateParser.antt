-- ===== src/DateParser.antt =====
-- app/core/date_parser.py: the earliest date that a human-readable text names. `dateutil` and the
-- Unicode table of `str.isdigit` are the record `DateLibrary`.
pub mod Earliest
pub mod Tests
use event_creator.Prelude.{
  ℕ, Bool, true, false, Option, none, some, List, [], ◌∷◌, any, ltb, if◌then◌else◌,
}
use event_creator.Python.Text.{Text, split, strip}
use event_creator.Python.Date.{Date}
use event_creator.Python.Exception.{
  Exception, value_error, overflow_error, validation_error, Result, ok, err,
}

pub record DateLibrary : Type 0 where
  pub is_digit : ℕ → Bool
  -- `dateutil_parser.parse(fragment, fuzzy=True).date()`
  pub parse : Text → Result Date

-- The classes of `except (ValueError, OverflowError)`; a `ValidationError` is a `ValueError`.
abbrev pub is_skipped : Exception → Bool
is_skipped (value_error t) = true
is_skipped (overflow_error t) = true
is_skipped (validation_error t) = true
is_skipped _ = false

-- `parsed if earliest is None or parsed < earliest else earliest`
abbrev pub earlier : Option Date → Date → Option Date
earlier none parsed = some parsed
earlier (some e) parsed = if ltb parsed e then some parsed else some e

module _ (lib : DateLibrary) where
  -- The loop over the fragments.
  unfoldable pub earliest_of : Option Date → List Text → Result (Option Date)
  earliest_of earliest [] = ok earliest
  earliest_of earliest (raw_fragment ∷ fragments) =
      let fragment = strip raw_fragment in
      elim (any lib.is_digit fragment) [
        | false ↦ earliest_of earliest fragments
        | true ↦ elim (lib.parse fragment) [
          | ok parsed ↦ earliest_of (earlier earliest parsed) fragments
          | err e ↦ elim (is_skipped e) [ true ↦ earliest_of earliest fragments | false ↦ err e ]
        ]
      ]

  unfoldable pub parse_earliest_date : Text → Result (Option Date)
  parse_earliest_date resolved_date = earliest_of none (split 0x2C resolved_date)
