-- ===== src/Archive/Members.antt =====
-- What the tests of app/core/archive.py for the members of a ZIP archive mean, in terms of their names and
-- sizes.
use event_creator.Prelude.{
  ◌<◌, ◌≡◌, ◌≢◌, ◌⊎◌, ◌↔◌, inl, inr, refl, ap, sym, ◌∙◌, Bool, true, false, not, ◌&&◌, Bool-cases,
  List, [], ◌∷◌, ◌++◌, All, filter, arith, if◌then◌else◌,
}
use mathlib.Core.Bool.{false≢true}
use event_creator.Python.Text.{
  lit, text_eq_iff, starts_with, contains, ends_with, text_lt, lower, path_name,
}
use event_creator.Python.Text.Parts.{
  IsPrefix, IsInfix, IsSuffix, starts_with_iff, contains_iff, ends_with_iff, mem_char-All,
  text_lt_asym, text_lt_trans,
}
use event_creator.Archive.{
  ZipInfo, Library, is_dir, is_regular, regular, sorts_before, best, lower_name, is_chat, is_txt,
  has_dot,
}

-- A directory, or what macOS adds: a path with `__MACOSX/` in it, or a name that starts with `._`.
abbrev pub IsCruft : ZipInfo → Type 0
IsCruft info =
    IsSuffix (lit "/") info.filename
    ⊎ (IsInfix (lit "__MACOSX/") info.filename ⊎ IsPrefix (lit "._") (path_name info.filename))

-- The second list is the first without its directories and cruft, in the same order.
pub data IsCleaned : List ZipInfo → List ZipInfo → Type 0 where
  empty : IsCleaned [] []
  left_out :
      {info : ZipInfo} {infos members : List ZipInfo}
      → IsCruft info
      → IsCleaned infos members
      → IsCleaned (info ∷ infos) members
  kept :
      {info : ZipInfo} {infos members : List ZipInfo}
      → ¬ (IsCruft info)
      → IsCleaned infos members
      → IsCleaned (info ∷ infos) (info ∷ members)

is_regular-IsCruft :
    (info : ZipInfo)
    → ((is_regular info ≡ true) × ¬ (IsCruft info)) ⊎ ((is_regular info ≡ false) × IsCruft info)
unfolding is_regular is_dir lit
is_regular-IsCruft info =
    tested (ends_with (0x2F ∷ []) info.filename) (contains (lit "__MACOSX/") info.filename)
      (starts_with (lit "._") (path_name info.filename)) refl refl refl
  where
    tested :
        (d m u : Bool)
        → ends_with (0x2F ∷ []) info.filename ≡ d
        → contains (lit "__MACOSX/") info.filename ≡ m
        → starts_with (lit "._") (path_name info.filename) ≡ u
        → (((not d && (not m && not u)) ≡ true) × ¬ (IsCruft info))
          ⊎ (((not d && (not m && not u)) ≡ false) × IsCruft info)
    tested true m u d_eq m_eq u_eq =
        inr (refl, inl ((ends_with_iff (0x2F ∷ []) info.filename).0 d_eq))
    tested false true u d_eq m_eq u_eq =
        inr (refl, inr (inl ((contains_iff (lit "__MACOSX/") info.filename).0 m_eq)))
    tested false false true d_eq m_eq u_eq =
        inr (refl, inr (inr ((starts_with_iff (lit "._") (path_name info.filename)).0 u_eq)))
    tested false false false d_eq m_eq u_eq = inl (refl, none_of)
      where
        none_of : ¬ (IsCruft info)
        none_of (inl h) = false≢true (sym d_eq ∙ (ends_with_iff (0x2F ∷ []) info.filename).1 h)
        none_of (inr (inl h)) =
            false≢true (sym m_eq ∙ (contains_iff (lit "__MACOSX/") info.filename).1 h)
        none_of (inr (inr h)) =
            false≢true (sym u_eq ∙ (starts_with_iff (lit "._") (path_name info.filename)).1 h)

pub regular-IsCleaned : (infos : List ZipInfo) → IsCleaned infos (regular infos)
unfolding regular
regular-IsCleaned [] = empty
regular-IsCleaned (info ∷ infos) = elim (is_regular-IsCruft info) [
  | inl h ↦ rw (filter, h.0) (kept h.1 (regular-IsCleaned infos))
  | inr h ↦ rw (filter, h.0) (left_out h.1 (regular-IsCleaned infos))
]

module _ (lib : Library) where
  -- The last component of the path, without case, is `_chat.txt`; ends with `.txt`.
  abbrev pub IsChat : ZipInfo → Type 0
  IsChat info = lower lib.lower_other (path_name info.filename) ≡ lit "_chat.txt"

  abbrev pub IsTxt : ZipInfo → Type 0
  IsTxt info = IsSuffix (lit ".txt") (lower lib.lower_other (path_name info.filename))

  pub is_chat_iff : (info : ZipInfo) → (is_chat lib info ≡ true) ↔ IsChat info
  unfolding is_chat lower_name
  is_chat_iff info = text_eq_iff (lower lib.lower_other (path_name info.filename)) (lit "_chat.txt")

  pub is_txt_iff : (info : ZipInfo) → (is_txt lib info ≡ true) ↔ IsTxt info
  unfolding is_txt lower_name
  is_txt_iff info = ends_with_iff (lit ".txt") (lower lib.lower_other (path_name info.filename))

  pub has_dot-All :
      (info : ZipInfo) → has_dot lib info ≡ false → All (λ c. c ≢ 0x2E) (path_name info.filename)
  unfolding has_dot
  has_dot-All info h = mem_char-All 0x2E (path_name info.filename) h

-- The first entry is larger, or of the same size and not after the other by name.
abbrev pub IsBefore : ZipInfo → ZipInfo → Type 0
IsBefore i j =
    (j.file_size < i.file_size)
    ⊎ ((i.file_size ≡ j.file_size) × (text_lt j.filename i.filename ≡ false))

IsBefore-sorts : (i j : ZipInfo) → sorts_before j i ≡ false → IsBefore i j
unfolding sorts_before
IsBefore-sorts i j h = ground arith

sorts_asym : (i j : ZipInfo) → sorts_before i j ≡ true → sorts_before j i ≡ false
unfolding sorts_before
sorts_asym i j h = ground (arith, text_lt_asym i.filename j.filename)

sorts_trans :
    (i j k : ZipInfo)
    → sorts_before j i ≡ false
    → sorts_before k j ≡ false
    → sorts_before k i ≡ false
unfolding sorts_before
sorts_trans i j k h g = ground (arith, text_lt_trans i.filename j.filename k.filename)

best_first :
    (i : ZipInfo) (more : List ZipInfo) → All (λ j. sorts_before j (best i more) ≡ false) (i ∷ more)
unfolding best
best_first i [] =
    (elim (Bool-cases (sorts_before i i)) [ inl e ↦ sorts_asym i i e | inr e ↦ e ], tt)
best_first i (j ∷ more) =
    pick (sorts_before j i) refl (best_first (if sorts_before j i then j else i) more)
  where
    pick :
        (b : Bool)
        → sorts_before j i ≡ b
        → All
            (λ k. sorts_before k (best (if b then j else i) more) ≡ false)
            ((if b then j else i) ∷ more)
        → All (λ k. sorts_before k (best (if b then j else i) more) ≡ false) (i ∷ j ∷ more)
    pick true e h = (sorts_trans (best j more) j i h.0 (sorts_asym j i e), h)
    pick false e h = (h.0, (sorts_trans (best i more) i j h.0 e, h.1))

pub All-implied :
    {P Q : ZipInfo → Type 0}
    → ((i : ZipInfo) → P i → Q i)
    → (infos : List ZipInfo) → All P infos
    → All Q infos
All-implied h [] p = tt
All-implied h (i ∷ infos) p = (h i p.0, All-implied h infos p.1)

pub best-IsBefore : (i : ZipInfo) (more : List ZipInfo) → All (IsBefore (best i more)) (i ∷ more)
best-IsBefore i more =
    All-implied (λ j h. IsBefore-sorts (best i more) j h) (i ∷ more) (best_first i more)

-- A test that fails says that what it tests does not hold.
pub All-not :
    {P : ZipInfo → Type 0} (p : ZipInfo → Bool)
    → ((i : ZipInfo) → (p i ≡ true) ↔ P i)
    → (infos : List ZipInfo) → All (λ i. p i ≡ false) infos
    → All (λ i. ¬ (P i)) infos
All-not p iff infos h = All-implied (λ i e held. false≢true (sym e ∙ (iff i).1 held)) infos h

-- The first that a filter keeps is the first that passes the test.
pub first-filter :
    (p : ZipInfo → Bool) (infos : List ZipInfo) {i : ZipInfo} {rest : List ZipInfo}
    → filter p infos ≡ i ∷ rest
    → (before : List ZipInfo) × (after : List ZipInfo) × (infos ≡ before ++ i ∷ after)
      × All (λ j. p j ≡ false) before
first-filter p [] h = cc
first-filter p (j ∷ infos) {i} {rest} h = tested (p j) refl h (λ e. first-filter p infos e)
  where
    tested :
        (b : Bool)
        → p j ≡ b
        → (elim b [ true ↦ j ∷ filter p infos | false ↦ filter p infos ]) ≡ i ∷ rest
        → (filter p infos ≡ i ∷ rest
            → (before : List ZipInfo) × (after : List ZipInfo) × (infos ≡ before ++ i ∷ after)
              × All (λ j. p j ≡ false) before)
        → (before : List ZipInfo) × (after : List ZipInfo) × (j ∷ infos ≡ before ++ i ∷ after)
          × All (λ j. p j ≡ false) before
    tested true e same later = let head : j ≡ i = cc in ([], infos, ap (λ k. k ∷ infos) head, tt)
    tested false e same later =
        let (before, after, whole, fail) = later same in
        (j ∷ before, after, ap (λ l. j ∷ l) whole, (e, fail))
