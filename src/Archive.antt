-- ===== src/Archive.antt =====
-- app/core/archive.py: what kind of archive the bytes are, and the chat text inside. `zipfile`, `gzip`
-- and the codecs are the record `Library`.
pub mod Members
pub mod Selection
pub mod Errors
pub mod Tests
use event_creator.Prelude.{
  ℕ, ◌+◌, ◌*◌, String, Bool, true, false, not, ◌&&◌, ◌||◌, Option, none, some, List, [], ◌∷◌, ◌++◌,
  ◌-◌, take, filter, ltb, ◌==◌, if◌then◌else◌, length,
}
use event_creator.Python.Text.{
  Text, lit, text_eq, mem_char, starts_with, ends_with, contains, text_lt, lstrip_while, lower,
  path_name,
}
use event_creator.Python.Exception.{
  Exception, value_error, overflow_error, validation_error, archive_error, gemini_error,
  runtime_error, not_implemented_error, os_error, eof_error, zlib_error, bad_zip_file, other,
  Result, ok, err, ◌>>=◌,
}

abbrev pub Bytes : Type 0
Bytes = List ℕ

-- An entry of a ZIP directory.
pub record ZipInfo : Type 0 where
  pub filename : Text
  pub file_size : ℕ

-- The standard library over bytes: `zipfile.is_zipfile`, `ZipFile(...).infolist()`, `open` of an entry
-- and a `read` of at most so many bytes of it, the same of a gzip stream, and the two codecs with
-- `errors="replace"`; `lower_other` is the Unicode table of `str.lower`.
pub record Library : Type 0 where
  pub is_zipfile : Bytes → Bool
  pub infolist : Bytes → Result (List ZipInfo)
  pub read_entry : Bytes → ZipInfo → ℕ → Result Bytes
  pub read_gzip : Bytes → ℕ → Result Bytes
  pub utf_16 : Bytes → Text
  pub utf_8_sig : Bytes → Text
  pub lower_other : ℕ → Text

abbrev pub max_decompressed_bytes : ℕ
max_decompressed_bytes = 20 * 1024 * 1024

abbrev no_chat : Exception
no_chat = archive_error (lit "The archive doesn't contain a readable chat text file.")

abbrev too_large : Exception
too_large = archive_error (lit "The archive's contents are too large to process.")

abbrev unreadable : Exception
unreadable =
    archive_error (lit "The archive could not be read - it may be corrupt or password-protected.")

pub record ChatExtraction : Type 0 where
  pub text : Text
  pub member_name : Text
  pub reason : Text

pub data Kind : Type 0 where
  zip gzip : Kind

-- `content[:2]`
abbrev pub first_two : Bytes → Bytes
first_two [] = []
first_two (a ∷ []) = a ∷ []
first_two (a ∷ b ∷ rest) = a ∷ b ∷ []

pub has_nul : Text → Bool
has_nul text = mem_char 0 text

within_cap : Bytes → Result Bytes
within_cap raw = if ltb max_decompressed_bytes (length raw) then err too_large else ok raw

-- The classes that `_extract_gzip` turns into `ArchiveError`.
gzip_handler : Exception → Exception
gzip_handler (os_error t) = unreadable
gzip_handler (eof_error t) = unreadable
gzip_handler (zlib_error t) = unreadable
gzip_handler e = e

-- Those of `zipfile.ZipFile(...)`.
open_handler : Exception → Exception
open_handler (bad_zip_file t) = unreadable
open_handler (os_error t) = unreadable
open_handler e = e

-- Those of `read`; a `GeminiError` would be a `RuntimeError` too.
read_handler : Exception → Exception
read_handler (runtime_error t) = unreadable
read_handler (gemini_error t) = unreadable
read_handler (not_implemented_error t) = unreadable
read_handler (bad_zip_file t) = unreadable
read_handler (zlib_error t) = unreadable
read_handler (os_error t) = unreadable
read_handler (eof_error t) = unreadable
read_handler e = e

-- `try: … except …: raise ArchiveError`
abbrev handling : (Exception → Exception) → Result Bytes → Result Bytes
handling handler (ok a) = ok a
handling handler (err e) = err (handler e)

handling_open : Result (List ZipInfo) → Result (List ZipInfo)
unfolding open_handler
handling_open (ok a) = ok a
handling_open (err e) = err (open_handler e)

is_dir : ZipInfo → Bool
is_dir info = ends_with (0x2F ∷ []) info.filename

pub is_regular : ZipInfo → Bool
unfolding is_dir
is_regular info =
    not (is_dir info)
    && (not (contains (lit "__MACOSX/") info.filename)
        && not (starts_with (lit "._") (path_name info.filename)))

pub regular : List ZipInfo → List ZipInfo
regular = filter is_regular

-- The order of the sort key `(-file_size, filename)`.
sorts_before : ZipInfo → ZipInfo → Bool
sorts_before i j =
    ltb j.file_size i.file_size || (i.file_size == j.file_size && text_lt i.filename j.filename)

-- `sorted(..., key=...)[0]`: the first entry that no other sorts before.
pub best : ZipInfo → List ZipInfo → ZipInfo
best i [] = i
best i (j ∷ more) = best (if sorts_before j i then j else i) more

abbrev first : List ZipInfo → Option ZipInfo
first [] = none
first (i ∷ infos) = some i

module _ (lib : Library) where
  open lib use {is_zipfile, infolist, read_entry, read_gzip, utf_16, utf_8_sig, lower_other}

  unfoldable pub sniff_archive : Bytes → Option Kind
  sniff_archive content =
      if is_zipfile content
      then some zip
      else if text_eq (first_two content) (0x1F ∷ 0x8B ∷ [])
      then some gzip
      else none

  pub decode_text : Bytes → Text
  decode_text content =
      let text =
        (if text_eq (first_two content) (0xFF ∷ 0xFE ∷ [])
            || text_eq (first_two content) (0xFE ∷ 0xFF ∷ [])
          then utf_16 content
          else utf_8_sig content) in
      lstrip_while (λ c. c == 0xFEFF) text

  lower_name : ZipInfo → Text
  lower_name info = lower lower_other (path_name info.filename)

  -- `source_name` without `.gz`, or with `.txt`.
  gzip_name : Text → Text
  gzip_name source_name =
      if ends_with (lit ".gz") (lower lower_other source_name)
      then take (length source_name - 3) source_name
      else source_name ++ lit ".txt"

  extract_gzip : Bytes → Text → Result ChatExtraction
  extract_gzip content source_name = do
    raw ←
        handling gzip_handler
          (do stream ← read_gzip content (max_decompressed_bytes + 1); within_cap stream)
    let text = decode_text raw
    if has_nul text
        then err no_chat
        else ok (record {
          text = text;
          member_name = gzip_name source_name;
          reason = lit "decompressed gzip";
        })

  -- `read` of `_extract_zip`.
  pub read_member : Bytes → ZipInfo → Result Bytes
  read_member content info =
      handling read_handler
        (do stream ← read_entry content info (max_decompressed_bytes + 1); within_cap stream)

  read_chat : Bytes → ZipInfo → Text → Result ChatExtraction
  read_chat content info reason = do
    raw ← read_member content info
    ok (record { text = decode_text raw; member_name = info.filename; reason = reason })

  pub is_chat : ZipInfo → Bool
  is_chat info = text_eq (lower_name info) (lit "_chat.txt")

  pub is_txt : ZipInfo → Bool
  is_txt info = ends_with (lit ".txt") (lower_name info)

  -- 1. The first member that is called `_chat.txt`.
  find_chat : List ZipInfo → Option ZipInfo
  find_chat infos = first (filter is_chat infos)

  -- 2. The members called `*.txt`.
  txts : List ZipInfo → List ZipInfo
  txts = filter is_txt

  pub has_dot : ZipInfo → Bool
  has_dot info = mem_char 0x2E (path_name info.filename)

  -- 3. The first member with a name without dots whose text has no NUL; a failing read ends the loop.
  find_plain : Bytes → List ZipInfo → Result ChatExtraction
  find_plain content [] = err no_chat
  find_plain content (i ∷ infos) =
      let rest = find_plain content infos in
      if has_dot i then rest else do
        raw ← read_member content i
        let text = decode_text raw
        if has_nul text
            then rest
            else ok (record {
              text = text;
              member_name = i.filename;
              reason = lit "used the only readable text file";
            })

  largest_or_plain : Bytes → List ZipInfo → List ZipInfo → Result ChatExtraction
  largest_or_plain content members [] = find_plain content members
  largest_or_plain content members (t ∷ ts) =
      read_chat content (best t ts) (lit "used largest .txt file")

  chat_or_txt : Bytes → List ZipInfo → Option ZipInfo → Result ChatExtraction
  chat_or_txt content members (some info) = read_chat content info (lit "extracted _chat.txt")
  chat_or_txt content members none = largest_or_plain content members (txts members)

  extract_members : Bytes → List ZipInfo → Result ChatExtraction
  extract_members content [] = err no_chat
  extract_members content (i ∷ infos) = chat_or_txt content (i ∷ infos) (find_chat (i ∷ infos))

  extract_zip : Bytes → Result ChatExtraction
  extract_zip content = do
    infos ← handling_open (infolist content)
    extract_members content (regular infos)

  -- `kind` is always one of the two that `sniff_archive` gives.
  pub extract_chat_text : Bytes → Kind → Text → Result ChatExtraction
  extract_chat_text content gzip source_name = extract_gzip content source_name
  extract_chat_text content zip source_name = extract_zip content
