-- ===== src/MessageFilter/RoundTrip.antt =====
-- Lines as phones write them are read back by `_match_line` of app/core/message_filter.py.
use event_creator.Prelude.{
  ℕ, ◌<◌, ◌≡◌, refl, ◌∙◌, Bool, true, false, none, some, List, [], ◌∷◌, ◌==◌, arith,
}
use event_creator.Python.Text.{Text, is_space, digit_value}
use event_creator.Python.Re.{
  Re, done, digits, ahead_non_space, optional, head_non_space, Groups, Rest, match_re, match,
}
use event_creator.MessageFilter.Formats.{
  Format, is, am_pm, dash_sender, bracket_sender, ios_iso, ios_ambiguous, android_12_hour,
  android_24_hour, line_date, first_match, match_line,
}
use event_creator.MessageFilter.Stamps.{
  Stamp, IsStamp, Separator, separator, stamp, two, Rejects, Rejects-char, reject-short, match-char,
  match-short_of_four, match-stamp, match-two, or_else-none, separator_no_digit, colon_no_digit,
}

-- The space before AM or PM, if there is one; and which of the two it is.
pub data Gap : Type 0 where
  plain no_break narrow : Gap

gap : Gap → ℕ
gap plain = 0x20
gap no_break = 0xA0
gap narrow = 0x202F

pub data Half : Type 0 where
  am pm : Half

half : Half → ℕ
half am = 0x41
half pm = 0x50

pub data Style : Type 0 where
  -- `8/30/26, 14:12 - Name`
  android_24 : Style
  -- `8/30/26, 2:12 PM - Name`
  android_12 : Gap → Half → Style
  -- `[8/30/26, 14:12:05] Name`
  ios_24 : ℕ → Style
  -- `[8/30/26, 2:12:05 PM] Name`
  ios_12 : ℕ → Gap → Half → Style

abbrev pub HasSeconds : Style → Type 0
HasSeconds android_24 = Unit
HasSeconds (android_12 _ _) = Unit
HasSeconds (ios_24 s) = s < 100
HasSeconds (ios_12 s _ _) = s < 100

-- The line, up to the first character of the sender's name and what follows it.
pub message_line : Style → Separator → Stamp → ℕ → Text → Text
message_line android_24 sep t c rest = stamp sep t 0x20 (0x2D ∷ 0x20 ∷ c ∷ rest)
message_line (android_12 g h) sep t c rest =
    stamp sep t (gap g) (half h ∷ 0x4D ∷ 0x20 ∷ 0x2D ∷ 0x20 ∷ c ∷ rest)
message_line (ios_24 s) sep t c rest = 0x5B ∷ stamp sep t 0x3A (two s (0x5D ∷ 0x20 ∷ c ∷ rest))
message_line (ios_12 s g h) sep t c rest =
    0x5B ∷ stamp sep t 0x3A (two s (gap g ∷ half h ∷ 0x4D ∷ 0x5D ∷ 0x20 ∷ c ∷ rest))

skip_format :
    (r : Re) (iso : Bool) (more : List Format) (line : Text)
    → match r line ≡ none
    → first_match ((r, iso) ∷ more) line ≡ first_match more line
unfolding first_match
skip_format r iso more line e = rw (e, first_match)

take_format :
    (r : Re) (iso : Bool) (more : List Format) (line : Text) (g : Groups)
    → match r line ≡ some g
    → first_match ((r, iso) ∷ more) line ≡ line_date iso g
unfolding first_match
take_format r iso more line g e = rw (e, first_match)

abbrev from_24 : List Format
from_24 = (android_24_hour, false) ∷ []

abbrev from_12 : List Format
from_12 = (android_12_hour, false) ∷ from_24

abbrev from_ios : List Format
from_ios = (ios_ambiguous, false) ∷ from_12

module _ (line : Text) {g : Groups} (iso_fails : match ios_iso line ≡ none) where
  matched_second : match ios_ambiguous line ≡ some g → match_line line ≡ line_date false g
  unfolding match_line
  matched_second e =
      skip_format ios_iso true from_ios line iso_fails
      ∙ take_format ios_ambiguous false from_12 line g e

  matched_third :
      match ios_ambiguous line ≡ none
      → match android_12_hour line ≡ some g
      → match_line line ≡ line_date false g
  unfolding match_line
  matched_third e2 e3 =
      skip_format ios_iso true from_ios line iso_fails
      ∙ skip_format ios_ambiguous false from_12 line e2
      ∙ take_format android_12_hour false from_24 line g e3

  matched_fourth :
      match ios_ambiguous line ≡ none
      → match android_12_hour line ≡ none
      → match android_24_hour line ≡ some g
      → match_line line ≡ line_date false g
  unfolding match_line
  matched_fourth e2 e3 e4 =
      skip_format ios_iso true from_ios line iso_fails
      ∙ skip_format ios_ambiguous false from_12 line e2
      ∙ skip_format android_12_hour false from_24 line e3
      ∙ take_format android_24_hour false [] line g e4

Rejects-bracket : (r : Re) → Rejects (is 0x5B r)
Rejects-bracket r = Rejects-char (λ d. d == 0x5B) r (λ x lt. ground arith)

gap_no_digit : (g : Gap) → digit_value (gap g) ≡ none
unfolding gap digit_value
gap_no_digit plain = refl
gap_no_digit no_break = refl
gap_no_digit narrow = refl

bracket_no_digit : digit_value 0x5D ≡ none
unfolding digit_value
bracket_no_digit = refl

space_no_digit : digit_value 0x20 ≡ none
unfolding digit_value
space_no_digit = refl

-- After the timestamp comes a space, and then a sender who does not start with one.
space_sender :
    (c : ℕ) (rest : Text) (g : Groups) (k : Rest)
    → is_space c ≡ false
    → match_re (is 0x20 (ahead_non_space done)) (0x20 ∷ c ∷ rest) g k ≡ k (c ∷ rest) g
unfolding match_re head_non_space
space_sender c rest g k e = rw (e, head_non_space)

match-am_pm :
    (gp : Gap) (h : Half) (r : Re) (s : Text) (g : Groups) (k : Rest)
    → match_re (am_pm r) (gap gp ∷ half h ∷ 0x4D ∷ s) g k ≡ match_re r s g k
unfolding match_re gap half
match-am_pm plain am r s g k = or_else-none (match_re r s g k)
match-am_pm plain pm r s g k = or_else-none (match_re r s g k)
match-am_pm no_break am r s g k = or_else-none (match_re r s g k)
match-am_pm no_break pm r s g k = or_else-none (match_re r s g k)
match-am_pm narrow am r s g k = or_else-none (match_re r s g k)
match-am_pm narrow pm r s g k = or_else-none (match_re r s g k)

-- What follows the minutes in the bracket of an iPhone.
abbrev seconds : Re → Re
seconds = optional (is 0x3A (digits 2 2 false done))

abbrev half_day : Re
half_day = optional (am_pm done) bracket_sender

module _ (a r : Re) (s : Text) (g : Groups) (k : Rest) where
  optional_taken :
      match_re r s g k ≡ none
      → match_re (optional a r) s g k ≡ match_re a s g (λ s' g'. match_re r s' g' k)
  unfolding match_re
  optional_taken e = rw e (or_else-none (match_re a s g (λ s' g'. match_re r s' g' k)))

  optional_skipped :
      match_re a s g (λ s' g'. match_re r s' g' k) ≡ none
      → match_re (optional a r) s g k ≡ match_re r s g k
  unfolding match_re
  optional_skipped e = rw e

match-done : (s : Text) (g : Groups) (k : Rest) → match_re done s g k ≡ k s g
unfolding match_re
match-done s g k = refl

half_day_not_colon : (s : Text) (g : Groups) (k : Rest) → match_re half_day (0x3A ∷ s) g k ≡ none
unfolding match_re
half_day_not_colon s g k = refl

am_pm_not_bracket : (s : Text) (g : Groups) (k : Rest) → match_re (am_pm done) (0x5D ∷ s) g k ≡ none
unfolding match_re
am_pm_not_bracket s g k = refl

bracket_not_gap :
    (gp : Gap) (s : Text) (g : Groups) (k : Rest) → match_re bracket_sender (gap gp ∷ s) g k ≡ none
unfolding match_re gap
bracket_not_gap plain s g k = refl
bracket_not_gap no_break s g k = refl
bracket_not_gap narrow s g k = refl

match-bracket_sender :
    (c : ℕ) (s : Text) (g : Groups) (k : Rest)
    → is_space c ≡ false
    → match_re bracket_sender (0x5D ∷ 0x20 ∷ c ∷ s) g k ≡ k (c ∷ s) g
match-bracket_sender c s g k e =
    match-char (λ d. d == 0x5D) (is 0x20 (ahead_non_space done)) 0x5D (0x20 ∷ c ∷ s) g k refl
    ∙ space_sender c s g k e

match-seconds :
    (n d : ℕ) (s : Text) (g : Groups) (k : Rest)
    → n < 100
    → digit_value d ≡ none
    → match_re (seconds half_day) (0x3A ∷ two n (d ∷ s)) g k ≡ match_re half_day (d ∷ s) g k
match-seconds n d s g k h e =
    let then : Rest = λ s' g'. match_re half_day s' g' k in
    optional_taken (is 0x3A (digits 2 2 false done)) half_day (0x3A ∷ two n (d ∷ s)) g k
      (half_day_not_colon (two n (d ∷ s)) g k)
    ∙ match-char (λ c. c == 0x3A) (digits 2 2 false done) 0x3A (two n (d ∷ s)) g then refl
    ∙ match-two false done n d s g then 0 h e
    ∙ match-done (d ∷ s) g then

abbrev accept : Rest
accept _ g = some g

match-no_half_day :
    (c : ℕ) (s : Text) (g : Groups)
    → is_space c ≡ false
    → match_re half_day (0x5D ∷ 0x20 ∷ c ∷ s) g accept ≡ some g
match-no_half_day c s g e =
    optional_skipped (am_pm done) bracket_sender (0x5D ∷ 0x20 ∷ c ∷ s) g accept
      (am_pm_not_bracket (0x20 ∷ c ∷ s) g (λ s' g'. match_re bracket_sender s' g' accept))
    ∙ match-bracket_sender c s g accept e

match-half_day :
    (gp : Gap) (h : Half) (c : ℕ) (s : Text) (g : Groups)
    → is_space c ≡ false
    → match_re half_day (gap gp ∷ half h ∷ 0x4D ∷ 0x5D ∷ 0x20 ∷ c ∷ s) g accept ≡ some g
match-half_day gp h c s g e =
    let end : Text = 0x5D ∷ 0x20 ∷ c ∷ s in
    let then : Rest = λ s' g'. match_re bracket_sender s' g' accept in
    optional_taken (am_pm done) bracket_sender (gap gp ∷ half h ∷ 0x4D ∷ end) g accept
      (bracket_not_gap gp (half h ∷ 0x4D ∷ end) g accept)
    ∙ match-am_pm gp h done end g then
    ∙ match-done end g then
    ∙ match-bracket_sender c s g accept e

module _ (sep : Separator) (t : Stamp) (c : ℕ) (rest : Text) (v : IsStamp t)
    (sender : is_space c ≡ false) where
  groups : Groups
  groups = t.first ∷ t.second ∷ t.year ∷ []

  not_ios_iso : (d : ℕ) (s : Text) → match ios_iso (stamp sep t d s) ≡ none
  unfolding match ios_iso stamp
  not_ios_iso d s = reject-short _ t.first _ [] _ v.first_small (Rejects-bracket _)

  not_ios_ambiguous : (d : ℕ) (s : Text) → match ios_ambiguous (stamp sep t d s) ≡ none
  unfolding match ios_ambiguous stamp
  not_ios_ambiguous d s = reject-short _ t.first _ [] _ v.first_small (Rejects-bracket _)

  not_12_hour : match android_12_hour (stamp sep t 0x20 (0x2D ∷ 0x20 ∷ c ∷ rest)) ≡ none
  unfolding match android_12_hour
  not_12_hour =
      match-stamp sep t (am_pm dash_sender) 0x20 (0x2D ∷ 0x20 ∷ c ∷ rest) accept v space_no_digit
      ∙ unfold match_re in refl

  is_24_hour : match android_24_hour (stamp sep t 0x20 (0x2D ∷ 0x20 ∷ c ∷ rest)) ≡ some groups
  unfolding match android_24_hour groups
  is_24_hour =
      match-stamp sep t dash_sender 0x20 (0x2D ∷ 0x20 ∷ c ∷ rest) accept v space_no_digit
      ∙ unfold match_re in space_sender c rest groups accept sender

  is_12_hour :
      (g : Gap) (h : Half)
      → match android_12_hour (stamp sep t (gap g) (half h ∷ 0x4D ∷ 0x20 ∷ 0x2D ∷ 0x20 ∷ c ∷ rest))
        ≡ some groups
  unfolding match android_12_hour groups
  is_12_hour g h =
      match-stamp sep t (am_pm dash_sender) (gap g) (half h ∷ 0x4D ∷ 0x20 ∷ 0x2D ∷ 0x20 ∷ c ∷ rest)
        accept v (gap_no_digit g)
      ∙ match-am_pm g h dash_sender (0x20 ∷ 0x2D ∷ 0x20 ∷ c ∷ rest) groups accept
      ∙ unfold match_re in space_sender c rest groups accept sender

  not_iso_bracket : (d : ℕ) (s : Text) → match ios_iso (0x5B ∷ stamp sep t d s) ≡ none
  unfolding match ios_iso stamp
  not_iso_bracket d s =
      match-char (λ e. e == 0x5B) _ 0x5B _ [] _ refl
      ∙ match-short_of_four true _ t.first (separator sep) _ [] _ v.first_small
          (separator_no_digit sep)

  is_ios :
      (n d : ℕ) (s : Text)
      → n < 100
      → digit_value d ≡ none
      → match_re half_day (d ∷ s) groups accept ≡ some groups
      → match ios_ambiguous (0x5B ∷ stamp sep t 0x3A (two n (d ∷ s))) ≡ some groups
  unfolding match ios_ambiguous groups
  is_ios n d s h e m =
      match-char (λ e. e == 0x5B) _ 0x5B _ [] _ refl
      ∙ match-stamp sep t (seconds half_day) 0x3A (two n (d ∷ s)) accept v colon_no_digit
      ∙ match-seconds n d s groups _ h e
      ∙ m

  -- A line that a phone wrote in one of the four styles of an ambiguous date, with a sender that
  -- does not begin with a space, has its three numbers read back by `_match_line`.
  pub match_line-message_line :
      (style : Style)
      → HasSeconds style
      → match_line (message_line style sep t c rest)
        ≡ some (record { a = t.first; b = t.second; year = t.year; iso = false })
  unfolding message_line line_date groups
  match_line-message_line android_24 h =
      matched_fourth _ (not_ios_iso 0x20 _) (not_ios_ambiguous 0x20 _) not_12_hour is_24_hour
  match_line-message_line (android_12 g x) h =
      matched_third _ (not_ios_iso (gap g) _) (not_ios_ambiguous (gap g) _) (is_12_hour g x)
  match_line-message_line (ios_24 n) h =
      matched_second _ (not_iso_bracket 0x3A _)
        (is_ios n 0x5D _ h bracket_no_digit (match-no_half_day c rest groups sender))
  match_line-message_line (ios_12 n g x) h =
      matched_second _ (not_iso_bracket 0x3A _)
        (is_ios n (gap g) _ h (gap_no_digit g) (match-half_day g x c rest groups sender))
