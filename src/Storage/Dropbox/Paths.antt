-- ===== src/Storage/Dropbox/Paths.antt =====
-- `_normalize_path` of app/services/storage/dropbox.py.
use event_creator.Prelude.{
  last_of, some, ◌≢◌, ℕ, ◌≡◌, refl, ◌⊎◌, inl, inr, Bool-cases, [], ◌∷◌, ◌==◌, if◌then◌else◌, arith,
}
use event_creator.Python.Text.{Text}
use event_creator.Storage.Dropbox.{rstrip_slash, rooted, normalize_path}

rstrip_slash-cons :
    (c d : ℕ) (s t : Text) → rstrip_slash t ≡ d ∷ s → rstrip_slash (c ∷ t) ≡ c ∷ d ∷ s
unfolding rstrip_slash
rstrip_slash-cons c d s t h = rw (rstrip_slash, h) refl

-- Stripped text is stripped already.
rstrip_slash_twice : (t : Text) → rstrip_slash (rstrip_slash t) ≡ rstrip_slash t
unfolding rstrip_slash
rstrip_slash_twice [] = refl
rstrip_slash_twice (c ∷ t) = by_rest (rstrip_slash t) (rstrip_slash_twice t)
  where
    by_rest :
        (rest : Text)
        → rstrip_slash rest ≡ rest
        → let stripped : Text = elim rest [
          | [] ↦ if c == 0x2F then [] else c ∷ []
          | d ∷ more ↦ c ∷ d ∷ more
        ] in
          rstrip_slash stripped ≡ stripped
    by_rest [] h = ground arith
    by_rest (d ∷ more) h = rstrip_slash-cons c d more (d ∷ more) h

-- The empty path; or one that starts with a slash and does not end with one.
abbrev pub IsRooted : Text → Type 0
IsRooted t = (t ≡ []) ⊎ ((s : Text) × (t ≡ 0x2F ∷ s) × (last_of t ≢ some 0x2F))

rstrip_slash-last : (t : Text) → last_of (rstrip_slash t) ≢ some 0x2F
unfolding rstrip_slash
rstrip_slash-last [] = λ h. cc
rstrip_slash-last (c ∷ t) = by_rest (rstrip_slash t) (rstrip_slash-last t)
  where
    by_rest :
        (rest : Text)
        → last_of rest ≢ some 0x2F
        → let stripped : Text = elim rest [
          | [] ↦ if c == 0x2F then [] else c ∷ []
          | d ∷ more ↦ c ∷ d ∷ more
        ] in
          last_of stripped ≢ some 0x2F
    by_rest [] apart h = elim (Bool-cases (c == 0x2F)) [ inl e ↦ cc | inr e ↦ ground arith ]
    by_rest (d ∷ more) apart h = apart h

rooted-IsRooted : (t : Text) → last_of t ≢ some 0x2F → IsRooted (rooted t)
unfolding rooted
rooted-IsRooted [] apart = inl refl
rooted-IsRooted (c ∷ t) apart = elim (Bool-cases (c == 0x2F)) [
  | inl e ↦
      let same : rooted (c ∷ t) ≡ c ∷ t = rw (rooted, e) refl in
      inr (t, ground arith, rw same apart)
  | inr e ↦
      let same : rooted (c ∷ t) ≡ 0x2F ∷ c ∷ t = rw (rooted, e) refl in
      inr (c ∷ t, same, rw same apart)
]

normalize_path-rooted : (t : Text) → rstrip_slash t ≡ t → normalize_path (rooted t) ≡ rooted t
unfolding normalize_path rooted
normalize_path-rooted [] h = refl
normalize_path-rooted (c ∷ t) h = elim (Bool-cases (c == 0x2F)) [
  | inl e ↦ rw (e, h, e) refl
  | inr e ↦ rw (e, rstrip_slash-cons 0x2F c t (c ∷ t) h) refl
]

-- A normalised path is empty, or it starts with a slash and does not end with one (so that it is never
-- `/`), and normalising it again changes nothing.
pub normalize_path-IsRooted :
    (path : Text)
    → IsRooted (normalize_path path) × (normalize_path (normalize_path path) ≡ normalize_path path)
unfolding normalize_path
normalize_path-IsRooted path = (
  rooted-IsRooted (rstrip_slash path) (rstrip_slash-last path),
  normalize_path-rooted (rstrip_slash path) (rstrip_slash_twice path),
)
