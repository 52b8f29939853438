-- ===== src/DateParser/Earliest.antt =====
-- What `parse_earliest_date` of app/core/date_parser.py returns.
use event_creator.Prelude.{
  ◌≤◌, ◌≡◌, refl, inl, inr, Bool, true, false, Bool-cases, Option, none, some, List, [], ◌∷◌, ◌++◌,
  any, ltb, All, Among, arith,
}
use event_creator.Python.Text.{Text, split, strip}
use event_creator.Python.Date.{Date}
use event_creator.Python.Exception.{Exception, value_error, overflow_error, Result, ok, err}
use event_creator.DateParser.{DateLibrary, is_skipped, earlier, earliest_of, parse_earliest_date}

-- A date, or one of the two classes that `dateutil` documents: `ParserError`, which is a `ValueError`,
-- for a text that it cannot read, and `OverflowError` for a number that no date holds.
abbrev pub IsUnreadable : Result Date → Type 0
IsUnreadable (ok d) = Unit
IsUnreadable (err (value_error t)) = Unit
IsUnreadable (err (overflow_error t)) = Unit
IsUnreadable (err _) = ⊥

IsUnreadable-is_skipped : (e : Exception) → IsUnreadable (err e) → is_skipped e ≡ true
IsUnreadable-is_skipped (value_error t) u = refl
IsUnreadable-is_skipped (overflow_error t) u = refl
IsUnreadable-is_skipped _ u = absurd u

-- The least date of a list, or none for the empty list.
abbrev pub IsEarliest : Option Date → List Date → Type 0
IsEarliest none ds = ds ≡ []
IsEarliest (some d) ds = Among d ds × All (λ e. d ≤ e) ds

known : Option Date → List Date
known none = []
known (some e) = e ∷ []

-- The date of a fragment before those of the fragments after it.
with_date : Bool → Result Date → List Date → List Date
with_date true (ok d) ds = d ∷ ds
with_date _ _ ds = ds

-- The least of a list that starts with the less of two dates is the least of the list with both.
before_first :
    (r : Option Date) (d e : Date) (ds : List Date)
    → ltb d e ≡ true
    → IsEarliest r (d ∷ ds)
    → IsEarliest r (e ∷ d ∷ ds)
before_first none d e ds l h = cc
before_first (some m) d e ds l h = (inr h.0, (ground (arith, h.1.0), h.1))

after_first :
    (r : Option Date) (d e : Date) (ds : List Date)
    → ltb d e ≡ false
    → IsEarliest r (e ∷ ds)
    → IsEarliest r (e ∷ d ∷ ds)
after_first none d e ds g h = cc
after_first (some m) d e ds g (inl first, least) =
    (inl first, (least.0, (ground (arith, least.0), least.1)))
after_first (some m) d e ds g (inr more, least) =
    (inr (inr more), (least.0, (ground (arith, least.0), least.1)))

-- A date that comes later in the loop is compared with the earliest so far.
compared :
    (acc r : Option Date) (d : Date) (ds : List Date)
    → IsEarliest r (known (earlier acc d) ++ ds)
    → IsEarliest r (known acc ++ d ∷ ds)
unfolding known
compared none r d ds h = h
compared (some e) r d ds h = elim (Bool-cases (ltb d e)) [
  | inl l ↦ before_first r d e ds l (rw l at h)
  | inr g ↦ after_first r d e ds g (rw g at h)
]

module _ (lib : DateLibrary) where
  -- The dates of the fragments that have a digit and that the library can read.
  pub dates_of : List Text → List Date
  dates_of [] = []
  dates_of (t ∷ fragments) =
      with_date (any lib.is_digit (strip t)) (lib.parse (strip t)) (dates_of fragments)

  module _ (documented : (t : Text) → IsUnreadable (lib.parse t)) where
    Outcome : Option Date → List Text → Type 0
    Outcome acc fragments =
        (r : Option Date) × (earliest_of lib acc fragments ≡ ok r)
        × IsEarliest r (known acc ++ dates_of fragments)

    fragment_outcome :
        (digit : Bool) (p : Result Date) (acc : Option Date) (fragments : List Text)
        → IsUnreadable p
        → Outcome acc fragments
        → ((d : Date) → Outcome (earlier acc d) fragments)
        → (r : Option Date) × ((elim digit [
          | false ↦ earliest_of lib acc fragments
          | true ↦ elim p [
            | ok parsed ↦ earliest_of lib (earlier acc parsed) fragments
            | err e ↦ elim (is_skipped e) [ true ↦ earliest_of lib acc fragments | false ↦ err e ]
          ]
        ])
            ≡ ok r)
          × IsEarliest r (known acc ++ with_date digit p (dates_of fragments))
    unfolding Outcome with_date
    fragment_outcome false p acc fragments u same next = same
    fragment_outcome true (ok d) acc fragments u same next =
        let (r, e, h) = next d in (r, e, compared acc r d (dates_of fragments) h)
    fragment_outcome true (err x) acc fragments u same next = rw (IsUnreadable-is_skipped x u) same

    earliest : (acc : Option Date) (fragments : List Text) → Outcome acc fragments
    unfolding Outcome earliest_of known dates_of
    earliest none [] = (none, refl, refl)
    earliest (some e) [] = (some e, refl, ((inl refl), (omega arith, tt)))
    earliest acc (t ∷ fragments) =
        fragment_outcome (any lib.is_digit (strip t)) (lib.parse (strip t)) acc fragments
          (documented (strip t)) (earliest acc fragments) (λ d. earliest (earlier acc d) fragments)

    -- If `dateutil` raises `ValueError` and `OverflowError` and no other class, the parser returns for
    -- every text: the least of the dates of the fragments between commas that have a digit and can be
    -- read, or none where there is no such fragment.
    pub parse_earliest_date-IsEarliest :
        (t : Text)
        → (r : Option Date) × (parse_earliest_date lib t ≡ ok r)
          × IsEarliest r (dates_of (split 0x2C t))
    unfolding parse_earliest_date Outcome known
    parse_earliest_date-IsEarliest t = earliest none (split 0x2C t)
