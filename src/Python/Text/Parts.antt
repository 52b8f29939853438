-- ===== src/Python/Text/Parts.antt =====
-- What the tests of `str` for a part of a text mean (used by app/core/archive.py), and that its order is a
-- strict weak order.
use mathlib.Core.List.{append-nil, append_assoc}
use event_creator.Prelude.{
  ℕ, ◌≡◌, ◌≢◌, ◌↔◌, inl, inr, refl, ap, sym, ◌∙◌, true, false, Bool-cases, [], ◌∷◌, ◌++◌, ◌==◌,
  ==_iff, All, arith,
}
use event_creator.Python.Text.{
  Text, mem_char, starts_with, ends_with, contains, text_lt, reverse_onto,
}

-- The text stands at the start of the other; in it; at its end.
abbrev pub IsPrefix : Text → Text → Type 0
IsPrefix s t = (after : Text) × (t ≡ s ++ after)

abbrev pub IsInfix : Text → Text → Type 0
IsInfix s t = (before : Text) × (after : Text) × (t ≡ before ++ (s ++ after))

abbrev pub IsSuffix : Text → Text → Type 0
IsSuffix s t = (before : Text) × (t ≡ before ++ s)

starts_with-IsPrefix : (s t : Text) → starts_with s t ≡ true → IsPrefix s t
unfolding starts_with
starts_with-IsPrefix [] t h = (t, refl)
starts_with-IsPrefix (p ∷ s) [] h = cc
starts_with-IsPrefix (p ∷ s) (c ∷ t) h = elim (Bool-cases (p == c)) [
  | inl e ↦
      let (after, same) = starts_with-IsPrefix s t (ground arith) in
      let head : p ≡ c = (==_iff p c).0 e in (after, cc)
  | inr e ↦ absurd (ground arith)
]

starts_with-append : (s t : Text) → starts_with s (s ++ t) ≡ true
unfolding starts_with
starts_with-append [] t = refl
starts_with-append (p ∷ s) t = ground (arith, starts_with-append s t)

pub starts_with_iff : (s t : Text) → (starts_with s t ≡ true) ↔ IsPrefix s t
starts_with_iff s t =
    (starts_with-IsPrefix s t, λ p. ap (starts_with s) p.1 ∙ starts_with-append s p.0)

contains-IsInfix : (s t : Text) → contains s t ≡ true → IsInfix s t
unfolding contains
contains-IsInfix s [] h = let (after, same) = starts_with-IsPrefix s [] h in ([], after, same)
contains-IsInfix s (c ∷ t) h = elim (Bool-cases (starts_with s (c ∷ t))) [
  | inl e ↦ let (after, same) = starts_with-IsPrefix s (c ∷ t) e in ([], after, same)
  | inr e ↦
      let (before, after, same) = contains-IsInfix s t (ground arith) in
      (c ∷ before, after, ap (λ l. c ∷ l) same)
]

contains-append : (before s after : Text) → contains s (before ++ (s ++ after)) ≡ true
unfolding contains
contains-append [] [] [] = refl
contains-append [] [] (c ∷ after) = ground (arith, starts_with-append [] (c ∷ after))
contains-append [] (p ∷ s) after = ground (arith, starts_with-append (p ∷ s) after)
contains-append (c ∷ before) s after = ground (arith, contains-append before s after)

pub contains_iff : (s t : Text) → (contains s t ≡ true) ↔ IsInfix s t
contains_iff s t = (contains-IsInfix s t, λ p. ap (contains s) p.2 ∙ contains-append p.0 s p.1)

reverse_onto-append :
    (s t out : Text) → reverse_onto (s ++ t) out ≡ reverse_onto t (reverse_onto s out)
unfolding reverse_onto
reverse_onto-append [] t out = refl
reverse_onto-append (c ∷ s) t out = reverse_onto-append s t (c ∷ out)

reverse_onto_nil : (s out : Text) → reverse_onto s out ≡ reverse_onto s [] ++ out
unfolding reverse_onto
reverse_onto_nil [] out = refl
reverse_onto_nil (c ∷ s) out =
    reverse_onto_nil s (c ∷ out)
    ∙ sym (append_assoc (reverse_onto s []) (c ∷ []) out)
    ∙ ap (λ l. l ++ out) (sym (reverse_onto_nil s (c ∷ [])))

reverse_onto_twice :
    (s t out : Text) → reverse_onto (reverse_onto s t) out ≡ reverse_onto t (s ++ out)
unfolding reverse_onto
reverse_onto_twice [] t out = refl
reverse_onto_twice (c ∷ s) t out = reverse_onto_twice s (c ∷ t) out

reversed_back : (s : Text) → reverse_onto (reverse_onto s []) [] ≡ s
unfolding reverse_onto
reversed_back s = reverse_onto_twice s [] [] ∙ append-nil s

ends_with-IsSuffix : (s t : Text) → ends_with s t ≡ true → IsSuffix s t
unfolding ends_with
ends_with-IsSuffix s t h =
    let (u, same) = starts_with-IsPrefix (reverse_onto s []) (reverse_onto t []) h in
    (
      reverse_onto u [],
      sym (reversed_back t)
          ∙ ap (λ l. reverse_onto l []) same
          ∙ reverse_onto-append (reverse_onto s []) u []
          ∙ ap (reverse_onto u) (reversed_back s)
          ∙ reverse_onto_nil u s,
    )

ends_with-append : (before s : Text) → ends_with s (before ++ s) ≡ true
unfolding ends_with
ends_with-append before s =
    ap (starts_with (reverse_onto s []))
      (reverse_onto-append before s [] ∙ reverse_onto_nil s (reverse_onto before []))
    ∙ starts_with-append (reverse_onto s []) (reverse_onto before [])

pub ends_with_iff : (s t : Text) → (ends_with s t ≡ true) ↔ IsSuffix s t
ends_with_iff s t = (ends_with-IsSuffix s t, λ p. ap (ends_with s) p.1 ∙ ends_with-append p.0 s)

-- A character that is not in a text is none of its characters.
pub mem_char-All : (c : ℕ) (s : Text) → mem_char c s ≡ false → All (λ d. d ≢ c) s
unfolding mem_char
mem_char-All c [] h = tt
mem_char-All c (d ∷ s) h = (λ e. absurd (ground arith), mem_char-All c s (ground arith))

pub text_lt_asym : (s t : Text) → text_lt s t ≡ true → text_lt t s ≡ false
unfolding text_lt
text_lt_asym [] [] h = refl
text_lt_asym [] (d ∷ t) h = refl
text_lt_asym (c ∷ s) [] h = cc
text_lt_asym (c ∷ s) (d ∷ t) h = ground (arith, text_lt_asym s t)

-- Where the second does not come before the first, nor the third before the second, the third does not
-- come before the first.
pub text_lt_trans : (s t u : Text) → text_lt t s ≡ false → text_lt u t ≡ false → text_lt u s ≡ false
unfolding text_lt
text_lt_trans [] t [] h k = refl
text_lt_trans [] [] (e ∷ u) h k = refl
text_lt_trans [] (d ∷ t) (e ∷ u) h k = refl
text_lt_trans (c ∷ s) [] u h k = cc
text_lt_trans (c ∷ s) (d ∷ t) [] h k = cc
text_lt_trans (c ∷ s) (d ∷ t) (e ∷ u) h k = ground (arith, text_lt_trans s t u)
