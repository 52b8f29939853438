-- ===== src/Storage/GoogleDrive/Quoting.antt =====
-- The values in a Drive query (`_escape_query_value` of app/services/storage/google_drive.py).
use event_creator.Prelude.{
  ℕ, ◌≡◌, refl, Bool, true, false, Bool-cases, inl, inr, Option, none, some, [], ◌∷◌, ◌++◌, ◌==◌,
  if◌then◌else◌, arith,
}
use mathlib.Core.List.{append_assoc}
use event_creator.Python.Text.{Text, lit}
use event_creator.Storage.GoogleDrive.{escape_query_value, quoted}

consed : ℕ → Option (Text × Text) → Option (Text × Text)
consed c none = none
consed c (some (value, rest)) = some (c ∷ value, rest)

-- How the query language reads a literal after its opening quote: the character after a backslash is
-- taken as it is, a quote ends the literal. The value comes with the rest of the query.
read_on : Bool → Text → Option (Text × Text)
unfolding consed
read_on escaped [] = none
read_on true (c ∷ t) = consed c (read_on false t)
read_on false (c ∷ t) =
    let after = read_on true t in
    let next = read_on false t in
    if c == 0x5C then after else if c == 0x27 then some ([], t) else consed c next

-- A literal, with its opening quote.
pub read_literal : Text → Option (Text × Text)
unfolding read_on
read_literal [] = none
read_literal (c ∷ t) = if c == 0x27 then read_on false t else none

read_on-escape :
    (value rest : Text)
    → read_on false (escape_query_value value ++ 0x27 ∷ rest) ≡ some (value, rest)
unfolding read_on consed escape_query_value
read_on-escape [] rest = refl
read_on-escape (c ∷ value) rest = elim (Bool-cases (c == 0x5C)) [
  | inl e ↦ ground (arith, read_on-escape value rest)
  | inr e ↦ elim (Bool-cases (c == 0x27)) [
    | inl f ↦ ground (arith, read_on-escape value rest)
    | inr f ↦ ground (arith, read_on-escape value rest)
  ]
]

-- Whatever text is quoted for a query, and whatever follows it there, the query language reads exactly
-- that text back, and goes on with what follows: no name can end its literal and change the query.
pub read_literal-quoted :
    (value rest : Text) → read_literal (quoted value ++ rest) ≡ some (value, rest)
unfolding read_literal quoted lit
read_literal-quoted value rest =
    rw (append_assoc (escape_query_value value) (lit "'") rest) (read_on-escape value rest)
