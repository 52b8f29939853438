-- ===== src/Python/Text.antt =====
-- Python's `str` as the list of its code points, with the methods that the program calls.
pub mod Parts
use Prim.Native.Char.{code}
use event_creator.Prelude.{
  ℕ, zero, suc, ◌+◌, ◌-◌, ◌/◌, ◌%◌, String, ◌≡◌, refl, ◌↔◌, arith, Bool, true, false, ◌&&◌, ◌||◌,
  Option, none, some, List, [], ◌∷◌, ◌++◌, ltb, leb, ◌==◌, if◌then◌else◌,
}

abbrev pub Text : Type 0
Text = List ℕ

codes : String → Text
codes String.[] = []
codes (String.◌∷◌ c s) = code c ∷ codes s

-- A string literal of the source.
unfoldable pub lit : String → Text
unfolding codes
lit s = codes s

-- `s == t`
unfoldable pub text_eq : Text → Text → Bool
text_eq [] [] = true
text_eq [] (d ∷ t) = false
text_eq (c ∷ s) [] = false
text_eq (c ∷ s) (d ∷ t) = (c == d) && text_eq s t

-- `c in s` for one character
unfoldable pub mem_char : ℕ → Text → Bool
mem_char c [] = false
mem_char c (d ∷ s) = (c == d) || mem_char c s

unfoldable pub starts_with : Text → Text → Bool
starts_with [] s = true
starts_with (p ∷ ps) [] = false
starts_with (p ∷ ps) (c ∷ s) = (p == c) && starts_with ps s

-- The text of a line break, `\r\n` first, as `str.splitlines` breaks lines.
unfoldable pub is_line_break : ℕ → Bool
is_line_break c =
    (leb 0x0A c && leb c 0x0D)
    || (leb 0x1C c && leb c 0x1E)
    || c == 0x85
    || c == 0x2028
    || c == 0x2029

-- `split_from line s` is `splitlines` of `s` with `line`, reversed, as the open line.
reverse_onto : Text → Text → Text
reverse_onto [] t = t
reverse_onto (c ∷ s) t = reverse_onto s (c ∷ t)

-- the state of the scan: `after_cr` says that the last character was `\r`, whose line is closed
split_from : Bool → Text → Text → List Text
unfolding is_line_break reverse_onto
split_from after_cr [] [] = []
split_from after_cr (l ∷ line) [] = reverse_onto (l ∷ line) [] ∷ []
split_from after_cr line (c ∷ s) = elim (after_cr && c == 0x0A) [
  | true ↦ split_from false line s
  | false ↦ elim (is_line_break c) [
    | true ↦ reverse_onto line [] ∷ split_from (c == 0x0D) [] s
    | false ↦ split_from false (c ∷ line) s
  ]
]

-- `s.splitlines()`
unfoldable pub splitlines : Text → List Text
unfolding split_from
splitlines s = split_from false [] s

-- `sep.join(parts)`
unfoldable pub join : Text → List Text → Text
join sep [] = []
join sep (p ∷ []) = p
join sep (p ∷ q ∷ rest) = p ++ (sep ++ join sep (q ∷ rest))

-- `str.isspace`, which is also `\s` of a `re` pattern
unfoldable pub is_space : ℕ → Bool
is_space c =
    (leb 9 c && leb c 13)
    || (leb 28 c && leb c 32)
    || c == 0x85
    || c == 0xA0
    || c == 0x1680
    || (leb 0x2000 c && leb c 0x200A)
    || c == 0x2028
    || c == 0x2029
    || c == 0x202F
    || c == 0x205F
    || c == 0x3000

-- The zeros of Unicode's runs of ten decimal digits: `\d` and `int` take them all.
unfoldable pub zeros : List ℕ
zeros =
    0x30 ∷ 0x660 ∷ 0x6F0 ∷ 0x7C0 ∷ 0x966 ∷ 0x9E6 ∷ 0xA66 ∷ 0xAE6 ∷ 0xB66 ∷ 0xBE6 ∷ 0xC66 ∷ 0xCE6
    ∷ 0xD66 ∷ 0xDE6 ∷ 0xE50 ∷ 0xED0 ∷ 0xF20 ∷ 0x1040 ∷ 0x1090 ∷ 0x17E0 ∷ 0x1810 ∷ 0x1946 ∷ 0x19D0
    ∷ 0x1A80 ∷ 0x1A90 ∷ 0x1B50 ∷ 0x1BB0 ∷ 0x1C40 ∷ 0x1C50 ∷ 0xA620 ∷ 0xA8D0 ∷ 0xA900 ∷ 0xA9D0
    ∷ 0xA9F0 ∷ 0xAA50 ∷ 0xABF0 ∷ 0xFF10 ∷ 0x104A0 ∷ 0x10D30 ∷ 0x11066 ∷ 0x110F0 ∷ 0x11136 ∷ 0x111D0
    ∷ 0x112F0 ∷ 0x11450 ∷ 0x114D0 ∷ 0x11650 ∷ 0x116C0 ∷ 0x11730 ∷ 0x118E0 ∷ 0x11950 ∷ 0x11C50
    ∷ 0x11D50 ∷ 0x11DA0 ∷ 0x11F50 ∷ 0x16A60 ∷ 0x16AC0 ∷ 0x16B50 ∷ 0x1D7CE ∷ 0x1D7D8 ∷ 0x1D7E2
    ∷ 0x1D7EC ∷ 0x1D7F6 ∷ 0x1E140 ∷ 0x1E2F0 ∷ 0x1E4F0 ∷ 0x1E950 ∷ 0x1FBF0 ∷ []

digit_from : List ℕ → ℕ → Option ℕ
digit_from [] c = none
digit_from (z ∷ zs) c = if leb z c && ltb c (z + 10) then some (c - z) else digit_from zs c

-- The value of a decimal digit, `none` for any other character.
unfoldable pub digit_value : ℕ → Option ℕ
unfolding digit_from zeros
digit_value c = digit_from zeros c

-- `str(n)` for a number that is not negative; `fuel` bounds the digits.
decimal_from : ℕ → ℕ → Text → Text
decimal_from zero n out = out
decimal_from (suc fuel) n out =
    let out' = (48 + n % 10) ∷ out in
    elim (n / 10 == 0) [ true ↦ out' | false ↦ decimal_from fuel (n / 10) out' ]

unfoldable pub str_ℕ : ℕ → Text
unfolding decimal_from
str_ℕ n = decimal_from (suc n) n []

-- `t.endswith(s)`
unfoldable pub ends_with : Text → Text → Bool
unfolding starts_with reverse_onto
ends_with s t = starts_with (reverse_onto s []) (reverse_onto t [])

-- `s in t`
unfoldable pub contains : Text → Text → Bool
unfolding starts_with
contains s [] = starts_with s []
contains s (c ∷ t) = starts_with s (c ∷ t) || contains s t

-- `s < t`
unfoldable pub text_lt : Text → Text → Bool
text_lt [] [] = false
text_lt [] (d ∷ t) = true
text_lt (c ∷ s) [] = false
text_lt (c ∷ s) (d ∷ t) = ltb c d || (c == d && text_lt s t)

-- `s.lstrip(c)` for one character; `s.lstrip()`, by the test `is_space`.
unfoldable pub lstrip_while : (ℕ → Bool) → Text → Text
lstrip_while p [] = []
lstrip_while p (c ∷ s) = let rest = lstrip_while p s in if p c then rest else c ∷ s

-- `s.strip()`
unfoldable pub strip : Text → Text
unfolding lstrip_while reverse_onto is_space
strip s = reverse_onto (lstrip_while is_space (reverse_onto (lstrip_while is_space s) [])) []

-- `s.lower()`; `other` is the Unicode table of the characters beyond ASCII.
unfoldable pub lower : (ℕ → Text) → Text → Text
lower other [] = []
lower other (c ∷ s) =
    (if leb 0x41 c && leb c 0x5A then (c + 32) ∷ [] else if ltb c 128 then c ∷ [] else other c)
    ++ lower other s

-- `s.split(c)` for one character, with the open piece reversed.
split_on : ℕ → Text → Text → List Text
unfolding reverse_onto
split_on c piece [] = reverse_onto piece [] ∷ []
split_on c piece (d ∷ s) = elim (d == c) [
  | true ↦ reverse_onto piece [] ∷ split_on c [] s
  | false ↦ split_on c (d ∷ piece) s
]

unfoldable pub split : ℕ → Text → List Text
unfolding split_on
split c s = split_on c [] s

-- The last component of a path that is not empty or `.`, as `PurePosixPath(s).name`.
last_component : Text → List Text → Text
last_component found [] = found
last_component found (p ∷ ps) =
    last_component (if text_eq p [] || text_eq p (0x2E ∷ []) then found else p) ps

unfoldable pub path_name : Text → Text
unfolding last_component split text_eq
path_name s = last_component [] (split 0x2F s)

pub text_eq_refl : (s : Text) → text_eq s s ≡ true
unfolding text_eq
text_eq_refl [] = refl
text_eq_refl (c ∷ s) = ground (arith, text_eq_refl s)

text_eq_sound : (s t : Text) → text_eq s t ≡ true → s ≡ t
unfolding text_eq
text_eq_sound [] [] h = refl
text_eq_sound [] (d ∷ t) h = ground arith
text_eq_sound (c ∷ s) [] h = ground arith
text_eq_sound (c ∷ s) (d ∷ t) h = ground (arith, text_eq_sound s t)

pub text_eq_iff : (s t : Text) → (text_eq s t ≡ true) ↔ (s ≡ t)
text_eq_iff s t = (text_eq_sound s t, λ e. rw e (text_eq_refl t))

str_ℕ_test : str_ℕ 2026 ≡ lit "2026"
unfolding str_ℕ lit
str_ℕ_test = refl

splitlines_test : splitlines (97 ∷ 13 ∷ 10 ∷ 10 ∷ 98 ∷ 10 ∷ []) ≡ (97 ∷ []) ∷ [] ∷ (98 ∷ []) ∷ []
unfolding splitlines
splitlines_test = refl

path_name_test : path_name (lit "a/b.txt/./") ≡ lit "b.txt"
unfolding path_name lit
path_name_test = refl

strip_test : strip (lit " \n ab c \t") ≡ lit "ab c"
unfolding strip lit
strip_test = refl
