-- ===== src/MessageFilter/Formats.antt =====
-- app/core/message_filter.py: `_APM`, `_FORMATS`, `_LineDate` and `_match_line`.
use event_creator.Prelude.{ℕ, Bool, true, false, ◌||◌, Option, none, some, List, [], ◌∷◌, ◌==◌}
use event_creator.Python.Text.{Text}
use event_creator.Python.Re.{Re, done, char, digits, optional, ahead_non_space, Groups, match}

pub record LineDate : Type 0 where
  pub a : ℕ
  pub b : ℕ
  pub year : ℕ
  pub iso : Bool

abbrev pub is : ℕ → Re → Re
is c r = char (λ d. d == c) r

-- A literal run of the pattern.
abbrev pub text : List ℕ → Re → Re
text [] r = r
text (c ∷ s) r = is c (text s r)

-- `[./-]`
abbrev pub date_sep : Re → Re
date_sep r = char (λ d. d == 0x2E || d == 0x2F || d == 0x2D) r

-- `_APM`: `[ \xa0\u202f]?(?:[AaPp][Mm])`
abbrev pub am_pm : Re → Re
am_pm r = optional (char (λ d. d == 0x20 || d == 0xA0 || d == 0x202F) done) (
    char (λ d. d == 0x41 || d == 0x61 || d == 0x50 || d == 0x70)
      (char (λ d. d == 0x4D || d == 0x6D) r))

-- `(\d{1,2})[./-](\d{1,2})[./-](\d{2,4}), \d{1,2}:\d{2}` and what follows
abbrev pub ambiguous_date : Re → Re
ambiguous_date r = digits 1 2 true (
    date_sep (
      digits 1 2 true (
        date_sep
          (digits 2 4 true (is 0x2C (is 0x20 (digits 1 2 false (is 0x3A (digits 2 2 false r)))))))))

-- ` - (?=\S)`
abbrev pub dash_sender : Re
dash_sender = is 0x20 (is 0x2D (is 0x20 (ahead_non_space done)))

-- `\] (?=\S)`
abbrev pub bracket_sender : Re
bracket_sender = is 0x5D (is 0x20 (ahead_non_space done))

-- `^\[(\d{4})-(\d{2})-(\d{2}), \d{1,2}:\d{2}:\d{2}\] (?=\S)`
unfoldable pub ios_iso : Re
ios_iso = is 0x5B (
    digits 4 4 true (
      is 0x2D (
        digits 2 2 true (
          is 0x2D (
            digits 2 2 true (
              is 0x2C (
                is 0x20 (
                  digits 1 2 false
                    (is 0x3A (digits 2 2 false (is 0x3A (digits 2 2 false bracket_sender))))))))))))

-- `^\[…, \d{1,2}:\d{2}(?::\d{2})?(?:_APM)?\] (?=\S)`
unfoldable pub ios_ambiguous : Re
ios_ambiguous = is 0x5B (
    ambiguous_date
      (optional (is 0x3A (digits 2 2 false done)) (optional (am_pm done) bracket_sender)))

unfoldable pub android_12_hour : Re
android_12_hour = ambiguous_date (am_pm dash_sender)

unfoldable pub android_24_hour : Re
android_24_hour = ambiguous_date dash_sender

abbrev pub Format : Type 0
Format = Re × Bool

unfoldable pub formats : List Format
formats =
    (ios_iso, true)
    ∷ (ios_ambiguous, false)
    ∷ (android_12_hour, false)
    ∷ (android_24_hour, false)
    ∷ []

-- The groups are (year, month, day) for ISO, else (first, second, year). Every pattern has three.
unfoldable pub line_date : Bool → Groups → Option LineDate
line_date true (g1 ∷ g2 ∷ g3 ∷ _) = some (record { a = g2; b = g3; year = g1; iso = true })
line_date false (g1 ∷ g2 ∷ g3 ∷ _) = some (record { a = g1; b = g2; year = g3; iso = false })
line_date _ _ = none

-- The loop over the formats: the first that matches.
unfoldable pub first_match : List Format → Text → Option LineDate
unfolding line_date
first_match [] line = none
first_match ((pattern_re, is_iso) ∷ more) line = elim (match pattern_re line) [
  | none ↦ first_match more line
  | some g ↦ line_date is_iso g
]

unfoldable pub match_line : Text → Option LineDate
unfolding first_match formats
match_line line = first_match formats line
