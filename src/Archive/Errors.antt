-- ===== src/Archive/Errors.antt =====
-- The exceptions of app/core/archive.py: which of the library's a caller can see besides `ArchiveError`.
use event_creator.Prelude.{
  ◌≡◌, refl, ◌⊎◌, inl, inr, Bool, true, false, Option, none, some, List, [], ◌∷◌, if◌then◌else◌,
  ltb, length, ◌+◌,
}
use event_creator.Python.Text.{Text, lit}
use event_creator.Python.Exception.{
  Exception, archive_error, gemini_error, runtime_error, not_implemented_error, os_error, eof_error,
  zlib_error, bad_zip_file, Result, ok, err, ◌>>=◌,
}
use event_creator.Archive.{
  Bytes, ZipInfo, Library, Kind, zip, gzip, max_decompressed_bytes, within_cap, too_large, no_chat,
  gzip_handler, read_handler, handling, handling_open, has_nul, has_dot, best, regular, decode_text,
  extract_gzip, read_member, read_chat, find_plain, find_chat, txts, largest_or_plain, chat_or_txt,
  extract_members, extract_zip, extract_chat_text,
}

abbrev pub IsArchiveError : Exception → Type 0
IsArchiveError (archive_error t) = Unit
IsArchiveError _ = ⊥

-- The classes that the module names: for the opening of a ZIP archive; for the read of one of its entries,
-- where `GeminiError` is a `RuntimeError` too; for the read of a gzip stream.
abbrev pub IsOpenError : Exception → Type 0
IsOpenError (bad_zip_file t) = Unit
IsOpenError (os_error t) = Unit
IsOpenError _ = ⊥

abbrev pub IsReadError : Exception → Type 0
IsReadError (runtime_error t) = Unit
IsReadError (gemini_error t) = Unit
IsReadError (not_implemented_error t) = Unit
IsReadError (bad_zip_file t) = Unit
IsReadError (zlib_error t) = Unit
IsReadError (os_error t) = Unit
IsReadError (eof_error t) = Unit
IsReadError _ = ⊥

abbrev pub IsGzipError : Exception → Type 0
IsGzipError (os_error t) = Unit
IsGzipError (eof_error t) = Unit
IsGzipError (zlib_error t) = Unit
IsGzipError _ = ⊥

-- A result that is not an error, or an error of the class.
abbrev pub Raises {ℓ} : {A : Type ℓ} → (Exception → Type 0) → Result A → Type 0
Raises P (ok a) = Unit
Raises P (err e) = P e

-- The classes of errors that a call of the library raises beyond those that are handled.
abbrev pub Passes {ℓ} : {A : Type ℓ} → (Exception → Type 0) → Result A → Exception → Type ℓ
Passes Handled r e = (r ≡ err e) × ¬ (Handled e)

Raises-bind {ℓ κ} :
    {A : Type ℓ} {B : Type κ} (P : Exception → Type 0) (m : Result A) (f : A → Result B)
    → Raises P m
    → ((a : A) → Raises P (f a))
    → Raises P (m >>= f)
Raises-bind P (ok a) f hm hf = hf a
Raises-bind P (err e) f hm hf = hm

Raises-if {ℓ} :
    {A : Type ℓ} (P : Exception → Type 0) (b : Bool) (m n : Result A)
    → Raises P m
    → Raises P n
    → Raises P (if b then m else n)
Raises-if P true m n hm hn = hm
Raises-if P false m n hm hn = hn

Raises-implied {ℓ} :
    {A : Type ℓ} {P Q : Exception → Type 0} (r : Result A)
    → ((e : Exception) → P e → Q e)
    → Raises P r
    → Raises Q r
Raises-implied (ok a) h p = tt
Raises-implied (err e) h p = h e p

opened :
    (r : Result (List ZipInfo))
    → Raises (λ e. IsArchiveError e ⊎ Passes IsOpenError r e) (handling_open r)
unfolding handling_open
opened (ok a) = tt
opened (err (bad_zip_file t)) = inl tt
opened (err (os_error t)) = inl tt
opened (err _) = inr (refl, λ h. h)

capped_read :
    (big : Bool) (raw : Bytes)
    → Raises IsArchiveError (handling read_handler (if big then err too_large else ok raw))
unfolding read_handler
capped_read true raw = tt
capped_read false raw = tt

capped_gzip :
    (big : Bool) (raw : Bytes)
    → Raises IsArchiveError (handling gzip_handler (if big then err too_large else ok raw))
unfolding gzip_handler
capped_gzip true raw = tt
capped_gzip false raw = tt

read_capped :
    (r : Result Bytes)
    → Raises
        (λ e. IsArchiveError e ⊎ Passes IsReadError r e)
        (handling read_handler (r >>= within_cap))
unfolding within_cap read_handler
read_capped (ok raw) =
    Raises-implied
      (handling read_handler
        (if ltb max_decompressed_bytes (length raw) then err too_large else ok raw))
      (λ e h. inl h) (capped_read (ltb max_decompressed_bytes (length raw)) raw)
read_capped (err (runtime_error t)) = inl tt
read_capped (err (gemini_error t)) = inl tt
read_capped (err (not_implemented_error t)) = inl tt
read_capped (err (bad_zip_file t)) = inl tt
read_capped (err (zlib_error t)) = inl tt
read_capped (err (os_error t)) = inl tt
read_capped (err (eof_error t)) = inl tt
read_capped (err _) = inr (refl, λ h. h)

gzip_capped :
    (r : Result Bytes)
    → Raises
        (λ e. IsArchiveError e ⊎ Passes IsGzipError r e)
        (handling gzip_handler (r >>= within_cap))
unfolding within_cap gzip_handler
gzip_capped (ok raw) =
    Raises-implied
      (handling gzip_handler
        (if ltb max_decompressed_bytes (length raw) then err too_large else ok raw))
      (λ e h. inl h) (capped_gzip (ltb max_decompressed_bytes (length raw)) raw)
gzip_capped (err (os_error t)) = inl tt
gzip_capped (err (eof_error t)) = inl tt
gzip_capped (err (zlib_error t)) = inl tt
gzip_capped (err _) = inr (refl, λ h. h)

module _ (lib : Library) (content : Bytes) where
  -- What an extraction can raise: `ArchiveError`; or what a call of the library raised, where its class is
  -- not one that the module names for that call.
  pub data Escapes : Kind → Exception → Type 0 where
    refused : {kind : Kind} {e : Exception} → IsArchiveError e → Escapes kind e
    opening : {e : Exception} → Passes IsOpenError (lib.infolist content) e → Escapes zip e
    reading :
        {e : Exception} (i : ZipInfo)
        → Passes IsReadError (lib.read_entry content i (max_decompressed_bytes + 1)) e
        → Escapes zip e
    unzipping :
        {e : Exception}
        → Passes IsGzipError (lib.read_gzip content (max_decompressed_bytes + 1)) e
        → Escapes gzip e

  member_errors : (i : ZipInfo) → Raises (Escapes zip) (read_member lib content i)
  unfolding read_member
  member_errors i =
      let r : Result Bytes = lib.read_entry content i (max_decompressed_bytes + 1) in
      Raises-implied (handling read_handler (r >>= within_cap)) escapes (read_capped r)
    where
      escapes :
          (e : Exception)
          → IsArchiveError e
            ⊎ Passes IsReadError (lib.read_entry content i (max_decompressed_bytes + 1)) e
          → Escapes zip e
      escapes e (inl h) = refused h
      escapes e (inr h) = reading i h

  chat_errors :
      (i : ZipInfo) (reason : Text) → Raises (Escapes zip) (read_chat lib content i reason)
  unfolding read_chat
  chat_errors i reason =
      Raises-bind (Escapes zip) (read_member lib content i) _ (member_errors i) (λ raw. tt)

  plain_errors : (infos : List ZipInfo) → Raises (Escapes zip) (find_plain lib content infos)
  unfolding find_plain
  plain_errors [] = refused tt
  plain_errors (i ∷ infos) =
      let rest = plain_errors infos in
      Raises-if (Escapes zip) (has_dot lib i) (find_plain lib content infos) _ rest (
        Raises-bind (Escapes zip) (read_member lib content i) _ (member_errors i) (λ raw.
          Raises-if (Escapes zip) (has_nul (decode_text lib raw)) (find_plain lib content infos) _
            rest tt))

  txt_errors :
      (members ts : List ZipInfo) → Raises (Escapes zip) (largest_or_plain lib content members ts)
  unfolding largest_or_plain
  txt_errors members [] = plain_errors members
  txt_errors members (t ∷ ts) = chat_errors (best t ts) (lit "used largest .txt file")

  chosen_errors :
      (members : List ZipInfo) (chat : Option ZipInfo)
      → Raises (Escapes zip) (chat_or_txt lib content members chat)
  unfolding chat_or_txt
  chosen_errors members (some i) = chat_errors i (lit "extracted _chat.txt")
  chosen_errors members none = txt_errors members (txts lib members)

  members_errors :
      (members : List ZipInfo) → Raises (Escapes zip) (extract_members lib content members)
  unfolding extract_members
  members_errors [] = refused tt
  members_errors (i ∷ infos) = chosen_errors (i ∷ infos) (find_chat lib (i ∷ infos))

  zip_errors : Raises (Escapes zip) (extract_zip lib content)
  unfolding extract_zip
  zip_errors =
      Raises-bind (Escapes zip) (handling_open (lib.infolist content)) _
        (Raises-implied (handling_open (lib.infolist content)) escapes
          (opened (lib.infolist content)))
        (λ infos. members_errors (regular infos))
    where
      escapes :
          (e : Exception)
          → IsArchiveError e ⊎ Passes IsOpenError (lib.infolist content) e
          → Escapes zip e
      escapes e (inl h) = refused h
      escapes e (inr h) = opening h

  gzip_errors : (source_name : Text) → Raises (Escapes gzip) (extract_gzip lib content source_name)
  unfolding extract_gzip
  gzip_errors source_name =
      Raises-bind (Escapes gzip)
        (handling gzip_handler (lib.read_gzip content (max_decompressed_bytes + 1) >>= within_cap))
        _
        (Raises-implied
          (handling gzip_handler
            (lib.read_gzip content (max_decompressed_bytes + 1) >>= within_cap))
          escapes (gzip_capped (lib.read_gzip content (max_decompressed_bytes + 1))))
        (λ raw.
          Raises-if (Escapes gzip) (has_nul (decode_text lib raw)) (err no_chat) _ (refused tt) tt)
    where
      escapes :
          (e : Exception)
          → IsArchiveError e
            ⊎ Passes IsGzipError (lib.read_gzip content (max_decompressed_bytes + 1)) e
          → Escapes gzip e
      escapes e (inl h) = refused h
      escapes e (inr h) = unzipping h

  -- Whatever the standard library raises, an extraction that does not return raises `ArchiveError`, or an
  -- exception of the library that is of no class that the module names for that call: for the opening of a
  -- ZIP archive `BadZipFile` and `OSError`; for the read of an entry `RuntimeError`, `NotImplementedError`,
  -- `BadZipFile`, `zlib.error`, `OSError` and `EOFError`; for gzip `OSError`, `EOFError` and `zlib.error`.
  pub extract_chat_text_errors :
      (kind : Kind) (source_name : Text)
      → Raises (Escapes kind) (extract_chat_text lib content kind source_name)
  unfolding extract_chat_text
  extract_chat_text_errors zip source_name = zip_errors
  extract_chat_text_errors gzip source_name = gzip_errors source_name
