-- ===== src/Archive/Tests.antt =====
-- Extractions from a small archive, and the properties of app/core/archive.py at concrete inputs.
use event_creator.Prelude.{some, none, false, true, List, [], ◌∷◌, ◌≡◌, refl}
use event_creator.Python.Text.{
  lit, text_eq, mem_char, starts_with, ends_with, contains, lower, path_name, lstrip_while,
}
use event_creator.Python.Exception.{eof_error, not_implemented_error, ok, err}
use event_creator.Archive.{
  open_handler, sniff_archive, gzip_name, has_nul, Library, ZipInfo, ChatExtraction, zip, gzip,
  regular, extract_chat_text, extract_zip, handling_open, is_regular, is_dir, extract_members,
  chat_or_txt, find_chat, is_chat, lower_name, largest_or_plain, txts, is_txt, best, read_chat,
  read_member, within_cap, decode_text,
}
use event_creator.Archive.Members.{IsCleaned}
use event_creator.Archive.Selection.{IsTaken, extract_zip-IsTaken}
use event_creator.Archive.Errors.{Escapes, Raises, extract_chat_text_errors}

abbrev photo : ZipInfo
photo = record { filename = lit "photo.jpg"; file_size = 10 }

abbrev notes : ZipInfo
notes = record { filename = lit "notes.txt"; file_size = 2 }

-- An archive of two entries, which reads the same text from each; no gzip stream is complete.
abbrev pub small_library : Library
small_library = record {
  is_zipfile = λ content. true;
  infolist = λ content. ok (photo ∷ notes ∷ []);
  read_entry = λ content info n. ok (lit "hi");
  read_gzip = λ content n. err (eof_error (lit "truncated"));
  utf_16 = λ content. content;
  utf_8_sig = λ content. content;
  lower_other = λ c. c ∷ [];
}

abbrev small_extraction : ChatExtraction
small_extraction = record {
  text = lit "hi";
  member_name = lit "notes.txt";
  reason = lit "used largest .txt file";
}

small_extract :
    extract_chat_text small_library (0x50 ∷ 0x4B ∷ []) zip (lit "chat.zip") ≡ ok small_extraction
unfolding extract_chat_text extract_zip handling_open regular is_regular is_dir extract_members
    chat_or_txt find_chat is_chat lower_name largest_or_plain txts is_txt best read_chat read_member
    within_cap decode_text lower path_name lit contains starts_with ends_with text_eq mem_char
    lstrip_while
small_extract = refl

-- Neither a ZIP nor a gzip signature.
plain_library : Library
plain_library = record small_library { is_zipfile = λ content. false }

sniff_gzip : sniff_archive plain_library (0x1F ∷ 0x8B ∷ 0 ∷ []) ≡ some gzip
unfolding sniff_archive plain_library text_eq
sniff_gzip = refl

sniff_text : sniff_archive plain_library (lit "hi") ≡ none
unfolding sniff_archive plain_library text_eq lit
sniff_text = refl

gzip_name_suffix : gzip_name small_library (lit "chat.GZ") ≡ lit "chat"
unfolding gzip_name lit lower ends_with
gzip_name_suffix = refl

has_nul_text : has_nul (0x61 ∷ 0 ∷ []) ≡ true
unfolding has_nul mem_char
has_nul_text = refl

-- An archive that needs a later version of the format, which `zipfile` raises when it opens it.
abbrev new_library : Library
new_library = record small_library {
  infolist = λ content. err (not_implemented_error (lit "zip file version 9.9"));
}

extract_chat_text_errors_example :
    Raises
      (Escapes new_library (0x50 ∷ 0x4B ∷ []) zip)
      (extract_chat_text new_library (0x50 ∷ 0x4B ∷ []) zip (lit "chat.zip"))
extract_chat_text_errors_example =
    extract_chat_text_errors new_library (0x50 ∷ 0x4B ∷ []) zip (lit "chat.zip")

-- That exception reaches the caller.
escaping_test :
    extract_chat_text new_library (0x50 ∷ 0x4B ∷ []) zip (lit "chat.zip")
    ≡ err (not_implemented_error (lit "zip file version 9.9"))
unfolding extract_chat_text extract_zip handling_open open_handler
escaping_test = refl

extract_zip-IsTaken_example :
    (infos : List ZipInfo) × (members : List ZipInfo) × (small_library.infolist (0x50 ∷ 0x4B ∷ [])
      ≡ ok infos)
    × IsCleaned infos members
    × IsTaken small_library (0x50 ∷ 0x4B ∷ []) members small_extraction
extract_zip-IsTaken_example =
    extract_zip-IsTaken small_library (0x50 ∷ 0x4B ∷ []) (lit "chat.zip") small_extract
