-- ===== src/MessageFilter/Stamps.antt =====
-- The lines that a phone writes into an export, and how the patterns of `_FORMATS`
-- (app/core/message_filter.py) run over their digits and separators.
use event_creator.Prelude.{
  ℕ, zero, suc, ◌+◌, ◌-◌, ◌*◌, ◌/◌, ◌%◌, ◌<◌, ◌≡◌, refl, ap, ◌∙◌, Bool, true, false, Option, none,
  some, [], ◌∷◌, ltb, ◌==◌, ◌||◌, arith, if◌then◌else◌, Bool-cases, inl, inr, ltb→lt,
}
use event_creator.Python.Text.{Text, digit_value}
use event_creator.Python.Re.{
  Re, char, digits, Groups, Rest, keep_group, or_else, match_digits, match_re,
}
use event_creator.MessageFilter.Formats.{is, date_sep, ambiguous_date}

-- A number below 100 in one or two digits; in two.
pub short : ℕ → Text → Text
short n s = if ltb n 10 then (48 + n) ∷ s else (48 + n / 10) ∷ (48 + n % 10) ∷ s

pub two : ℕ → Text → Text
two n s = (48 + n / 10) ∷ (48 + n % 10) ∷ s

digit_value_ascii : (x : ℕ) → x < 10 → digit_value (48 + x) ≡ some x
unfolding digit_value
digit_value_ascii x h = ground arith

-- A pattern that no text with a digit first can match.
abbrev pub Rejects : Re → Type 0
Rejects r =
    (x : ℕ) (s : Text) (g : Groups) (k : Rest) → x < 10 → match_re r ((48 + x) ∷ s) g k ≡ none

pub or_else-none : (o : Option Groups) → or_else o none ≡ o
or_else-none none = refl
or_else-none (some g) = refl

pub match-char :
    (p : ℕ → Bool) (r : Re) (c : ℕ) (s : Text) (g : Groups) (k : Rest)
    → p c ≡ true
    → match_re (char p r) (c ∷ s) g k ≡ match_re r s g k
unfolding match_re
match-char p r c s g k h = rw h

pub match-char_not :
    (p : ℕ → Bool) (r : Re) (c : ℕ) (s : Text) (g : Groups) (k : Rest)
    → p c ≡ false
    → match_re (char p r) (c ∷ s) g k ≡ none
unfolding match_re
match-char_not p r c s g k h = rw h

match_digits-step :
    (lo hi v c d : ℕ) (s : Text) (k : ℕ → Text → Option Groups)
    → digit_value c ≡ some d
    → match_digits lo (suc hi) v (c ∷ s) k
      ≡ or_else (match_digits (lo - 1) hi (v * 10 + d) s k) (if lo == 0 then k v (c ∷ s) else none)
unfolding match_digits
match_digits-step lo hi v c d s k e = rw (e, match_digits)

match_digits-stop :
    (hi v c : ℕ) (s : Text) (k : ℕ → Text → Option Groups)
    → digit_value c ≡ none
    → match_digits 0 hi v (c ∷ s) k ≡ k v (c ∷ s)
unfolding match_digits
match_digits-stop zero v c s k e = refl
match_digits-stop (suc hi) v c s k e = rw (e, match_digits)

two_digits : (n : ℕ) → (0 * 10 + n / 10) * 10 + n % 10 ≡ n
two_digits n = omega arith

pub match_digits-two :
    (hi n c : ℕ) (s : Text) (k : ℕ → Text → Option Groups)
    → n < 100
    → digit_value c ≡ none
    → match_digits 2 (suc (suc hi)) 0 (two n (c ∷ s)) k ≡ k n (c ∷ s)
unfolding two
match_digits-two hi n c s k h e = rw (
  match_digits-step 2 (suc hi) 0 (48 + n / 10) (n / 10) ((48 + n % 10) ∷ c ∷ s) k
      (digit_value_ascii (n / 10) (omega arith)),
  match_digits-step 1 hi (0 * 10 + n / 10) (48 + n % 10) (n % 10) (c ∷ s) k
      (digit_value_ascii (n % 10) (omega arith)),
  two_digits n,
  match_digits-stop hi n c s k e,
  or_else-none,
  or_else-none,
)

match_digits-one :
    (n c : ℕ) (s : Text) (k : ℕ → Text → Option Groups)
    → n < 10
    → digit_value c ≡ none
    → match_digits 1 2 0 ((48 + n) ∷ c ∷ s) k ≡ k n (c ∷ s)
match_digits-one n c s k h e =
    rw
      (
        match_digits-step 1 1 0 (48 + n) n (c ∷ s) k (digit_value_ascii n h),
        match_digits-stop 1 (0 * 10 + n) c s k e,
        or_else-none,
      )
      (ap (λ v. k v (c ∷ s)) (omega arith))

match_digits-one_of_two :
    (n c : ℕ) (s : Text) (k : ℕ → Text → Option Groups)
    → n < 100
    → digit_value c ≡ none
    → ((v x : ℕ) (t : Text) → x < 10 → k v ((48 + x) ∷ t) ≡ none)
    → match_digits 1 2 0 (two n (c ∷ s)) k ≡ k n (c ∷ s)
unfolding two
match_digits-one_of_two n c s k h e rej = rw (
  match_digits-step 1 1 0 (48 + n / 10) (n / 10) ((48 + n % 10) ∷ c ∷ s) k
      (digit_value_ascii (n / 10) (omega arith)),
  match_digits-step 0 0 (0 * 10 + n / 10) (48 + n % 10) (n % 10) (c ∷ s) k
      (digit_value_ascii (n % 10) (omega arith)),
  two_digits n,
  match_digits-stop 0 n c s k e,
  rej (0 * 10 + n / 10) (n % 10) (c ∷ s) (omega arith),
  or_else-none,
  or_else-none,
)

pub match_digits-short :
    (n c : ℕ) (s : Text) (k : ℕ → Text → Option Groups)
    → n < 100
    → digit_value c ≡ none
    → ((v x : ℕ) (t : Text) → x < 10 → k v ((48 + x) ∷ t) ≡ none)
    → match_digits 1 2 0 (short n (c ∷ s)) k ≡ k n (c ∷ s)
unfolding short
match_digits-short n c s k h e rej = elim (Bool-cases (ltb n 10)) [
  | inl small ↦ rw (small, short) (match_digits-one n c s k (ltb→lt n 10 small) e)
  | inr large ↦ rw (large, short) (unfold two in match_digits-one_of_two n c s k h e rej)
]

match_digits-stuck :
    (lo hi v c : ℕ) (s : Text) (k : ℕ → Text → Option Groups)
    → digit_value c ≡ none
    → match_digits (suc lo) hi v (c ∷ s) k ≡ none
unfolding match_digits
match_digits-stuck lo zero v c s k e = ground arith
match_digits-stuck lo (suc hi) v c s k e = rw (e, match_digits) (ground arith)

-- One or two digits are not four.
match_digits-short_of_four :
    (n c : ℕ) (s : Text) (k : ℕ → Text → Option Groups)
    → n < 100
    → digit_value c ≡ none
    → match_digits 4 4 0 (short n (c ∷ s)) k ≡ none
unfolding short
match_digits-short_of_four n c s k h e = elim (Bool-cases (ltb n 10)) [
  | inl small ↦ rw (
    small,
    short,
    match_digits-step 4 3 0 (48 + n) n (c ∷ s) k (digit_value_ascii n (ltb→lt n 10 small)),
    match_digits-stuck 2 3 (0 * 10 + n) c s k e,
  )
  | inr large ↦ rw (
    large,
    short,
    match_digits-step 4 3 0 (48 + n / 10) (n / 10) ((48 + n % 10) ∷ c ∷ s) k
        (digit_value_ascii (n / 10) (omega arith)),
    match_digits-step 3 2 (0 * 10 + n / 10) (48 + n % 10) (n % 10) (c ∷ s) k
        (digit_value_ascii (n % 10) (omega arith)),
    match_digits-stuck 1 2 ((0 * 10 + n / 10) * 10 + n % 10) c s k e,
  )
]

pub match-short_of_four :
    (kept : Bool) (r : Re) (n c : ℕ) (s : Text) (g : Groups) (k : Rest)
    → n < 100
    → digit_value c ≡ none
    → match_re (digits 4 4 kept r) (short n (c ∷ s)) g k ≡ none
unfolding match_re
match-short_of_four kept r n c s g k h e =
    match_digits-short_of_four n c s (λ v s'. match_re r s' (keep_group kept v g) k) h e

-- A text that starts with a number does not start as `r` demands.
pub reject-short :
    (r : Re) (n : ℕ) (s : Text) (g : Groups) (k : Rest)
    → n < 100
    → Rejects r
    → match_re r (short n s) g k ≡ none
unfolding short
reject-short r n s g k h rej = elim (Bool-cases (ltb n 10)) [
  | inl small ↦ rw (small, short) (rej n s g k (ltb→lt n 10 small))
  | inr large ↦ rw (large, short) (rej (n / 10) ((48 + n % 10) ∷ s) g k (omega arith))
]

module _ (kept : Bool) (r : Re) (n c : ℕ) (s : Text) (g : Groups) (k : Rest) where
  pub match-short :
      n < 100
      → digit_value c ≡ none
      → Rejects r
      → match_re (digits 1 2 kept r) (short n (c ∷ s)) g k
        ≡ match_re r (c ∷ s) (keep_group kept n g) k
  unfolding match_re
  match-short h e rej =
      match_digits-short n c s (λ v s'. match_re r s' (keep_group kept v g) k) h e
        (λ v x t lt. rej x t (keep_group kept v g) k lt)

  pub match-two :
      (hi : ℕ)
      → n < 100
      → digit_value c ≡ none
      → match_re (digits 2 (suc (suc hi)) kept r) (two n (c ∷ s)) g k
        ≡ match_re r (c ∷ s) (keep_group kept n g) k
  unfolding match_re
  match-two hi h e = match_digits-two hi n c s (λ v s'. match_re r s' (keep_group kept v g) k) h e

-- The date and the time of a line, in day or month order, with one of the separators of `[./-]`.
pub record Stamp : Type 0 where
  pub first : ℕ
  pub second : ℕ
  pub year : ℕ
  pub hour : ℕ
  pub minute : ℕ

pub record IsStamp (t : Stamp) : Type 0 where
  pub first_small : t.first < 100
  pub second_small : t.second < 100
  pub year_small : t.year < 100
  pub hour_small : t.hour < 100
  pub minute_small : t.minute < 100

pub data Separator : Type 0 where
  dot slash dash : Separator

pub separator : Separator → ℕ
separator dot = 0x2E
separator slash = 0x2F
separator dash = 0x2D

-- `8/30/26, 2:12`, before `c` and `s`
unfoldable pub stamp : Separator → Stamp → ℕ → Text → Text
stamp sep t c s = short t.first (
    separator sep
    ∷ short t.second
        (separator sep ∷ two t.year (0x2C ∷ 0x20 ∷ short t.hour (0x3A ∷ two t.minute (c ∷ s)))))

pub Rejects-char :
    (p : ℕ → Bool) (r : Re) → ((x : ℕ) → x < 10 → p (48 + x) ≡ false) → Rejects (char p r)
Rejects-char p r h x s g k lt = match-char_not p r (48 + x) s g k (h x lt)

Rejects-date_sep : (r : Re) → Rejects (date_sep r)
Rejects-date_sep r =
    Rejects-char (λ d. d == 0x2E || d == 0x2F || d == 0x2D) r (λ x lt. ground arith)

Rejects-colon : (r : Re) → Rejects (is 0x3A r)
Rejects-colon r = Rejects-char (λ d. d == 0x3A) r (λ x lt. ground arith)

pub separator_no_digit : (sep : Separator) → digit_value (separator sep) ≡ none
unfolding separator digit_value
separator_no_digit dot = refl
separator_no_digit slash = refl
separator_no_digit dash = refl

match-date_sep :
    (sep : Separator) (r : Re) (s : Text) (g : Groups) (k : Rest)
    → match_re (date_sep r) (separator sep ∷ s) g k ≡ match_re r s g k
unfolding separator match_re
match-date_sep dot r s g k = refl
match-date_sep slash r s g k = refl
match-date_sep dash r s g k = refl

comma_no_digit : digit_value 0x2C ≡ none
unfolding digit_value
comma_no_digit = refl

pub colon_no_digit : digit_value 0x3A ≡ none
unfolding digit_value
colon_no_digit = refl

match-comma :
    (r : Re) (s : Text) (g : Groups) (k : Rest)
    → match_re (is 0x2C (is 0x20 r)) (0x2C ∷ 0x20 ∷ s) g k ≡ match_re r s g k
unfolding match_re
match-comma r s g k = refl

match-colon :
    (r : Re) (s : Text) (g : Groups) (k : Rest)
    → match_re (is 0x3A r) (0x3A ∷ s) g k ≡ match_re r s g k
unfolding match_re
match-colon r s g k = refl

-- The common front of three patterns consumes a stamp and keeps its three numbers.
pub match-stamp :
    (sep : Separator) (t : Stamp) (r : Re) (c : ℕ) (s : Text) (k : Rest)
    → IsStamp t
    → digit_value c ≡ none
    → match_re (ambiguous_date r) (stamp sep t c s) [] k
      ≡ match_re r (c ∷ s) (t.first ∷ t.second ∷ t.year ∷ []) k
unfolding stamp
match-stamp sep t r c s k v e =
    match-short true _ t.first (separator sep) _ [] k v.first_small sep_ends (Rejects-date_sep _)
    ∙ match-date_sep sep _ _ (t.first ∷ []) k
    ∙ match-short true _ t.second (separator sep) _ (t.first ∷ []) k v.second_small sep_ends
        (Rejects-date_sep _)
    ∙ match-date_sep sep _ _ (t.first ∷ t.second ∷ []) k
    ∙ match-two true _ t.year 0x2C _ (t.first ∷ t.second ∷ []) k 2 v.year_small comma_no_digit
    ∙ match-comma _ _ groups k
    ∙ match-short false _ t.hour 0x3A _ groups k v.hour_small colon_no_digit (Rejects-colon _)
    ∙ match-colon _ _ groups k
    ∙ match-two false r t.minute c s groups k 0 v.minute_small e
  where
    groups : Groups
    groups = t.first ∷ t.second ∷ t.year ∷ []

    sep_ends : digit_value (separator sep) ≡ none
    sep_ends = separator_no_digit sep
