-- ===== src/Python/Re.antt =====
-- The part of Python's `re` that the patterns of app/core/message_filter.py use, as a matcher that
-- backtracks in the order of `re`: greedy repetition and `?` take as much as they can first.
use event_creator.Prelude.{
  ℕ, zero, suc, ◌+◌, ◌-◌, ◌*◌, Bool, true, false, not, Option, none, some, List, [], ◌∷◌, ◌++◌,
  ◌==◌, if◌then◌else◌,
}
use event_creator.Python.Text.{Text, is_space, digit_value}

pub data Re : Type 0 where
  -- the end of the pattern
  done : Re
  -- one character that passes the test
  char : (ℕ → Bool) → Re → Re
  -- `\d{lo,hi}`, a group that keeps its `int` if the flag says so
  digits : ℕ → ℕ → Bool → Re → Re
  -- `(?:a)?`
  optional : Re → Re → Re
  -- `(?=\S)`
  ahead_non_space : Re → Re

-- The groups that have matched, in order.
abbrev pub Groups : Type 0
Groups = List ℕ

abbrev pub Rest : Type 0
Rest = Text → Groups → Option Groups

abbrev pub or_else : Option Groups → Option Groups → Option Groups
or_else none b = b
or_else (some a) b = some a

abbrev pub keep_group : Bool → ℕ → Groups → Groups
keep_group true v g = g ++ v ∷ []
keep_group false v g = g

-- `\d{lo,hi}` with `v` read so far: a further digit if there is one, else the rest.
unfoldable pub match_digits : ℕ → ℕ → ℕ → Text → (ℕ → Text → Option Groups) → Option Groups
match_digits lo zero v s k = if lo == 0 then k v s else none
match_digits lo (suc hi) v [] k = if lo == 0 then k v [] else none
match_digits lo (suc hi) v (c ∷ s) k =
    let stop = if lo == 0 then k v (c ∷ s) else none in
    elim (digit_value c) [
      | some d ↦ or_else (match_digits (lo - 1) hi (v * 10 + d) s k) stop
      | none ↦ stop
    ]

unfoldable pub head_non_space : Text → Bool
head_non_space [] = false
head_non_space (c ∷ s) = not (is_space c)

unfoldable pub match_re : Re → Text → Groups → Rest → Option Groups
unfolding match_digits
match_re done s g k = k s g
match_re (char p r) [] g k = none
match_re (char p r) (c ∷ s) g k = let m = match_re r s g k in if p c then m else none
match_re (digits lo hi kept r) s g k =
    match_digits lo hi 0 s (λ v s'. match_re r s' (keep_group kept v g) k)
match_re (optional a r) s g k =
    or_else (match_re a s g (λ s' g'. match_re r s' g' k)) (match_re r s g k)
match_re (ahead_non_space r) s g k =
    let m = match_re r s g k in if head_non_space s then m else none

-- `pattern.match(s)`: the groups, or `none`.
unfoldable pub match : Re → Text → Option Groups
match r s = match_re r s [] (λ _ g. some g)
