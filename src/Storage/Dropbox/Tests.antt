-- ===== src/Storage/Dropbox/Tests.antt =====
-- The Dropbox provider over a scripted service, and its properties at concrete inputs.
use event_creator.Prelude.{◌≡◌, refl, true, false, some, List, [], ◌∷◌, arith}
use event_creator.Python.Text.{Text, lit, text_eq, contains, starts_with}
use event_creator.Python.Exception.{ok}
use event_creator.Python.Json.{
  Value, string, boolean, array, object, field, end, cons, nil, item, get_value, get, present,
  items, iterate, str, truthy,
}
use event_creator.Database.{RemoteFile, FileDestination}
use event_creator.Storage.Http.{Request, Response, lookup}
use event_creator.Storage.Token.{
  Account, Session, send, token_is_fresh_at, token_is_fresh, refresh_request, expiry, take_token,
  token_value, token_text, no_token, refresh_with, refresh_access_token, bearer, headers_when,
  auth_headers,
}
use event_creator.Storage.Samples.{scripted, connected, answer, named, token_answer}
use event_creator.Storage.GoogleDrive.{destination_name}
use event_creator.Storage.GoogleDrive.Retry.{IsLast}
use event_creator.Storage.Dropbox.{
  no_arguments, rstrip_slash, rooted, normalize_path, is_ensured, ensure, folder_path, request_with,
  retry, raw_request, checked, request, destination_path, is_created, after_create,
  ensure_destination_folder, upload_file, is_file, file_of, files_of, entries_of, has_more,
  next_cursor, read_page, continue_listing, list_pages, list_new_files, download_file, move_file,
}
use event_creator.Storage.Dropbox.Retry.{retry_fresh}
use event_creator.Storage.Dropbox.Paths.{IsRooted, normalize_path-IsRooted}
use event_creator.Storage.Dropbox.Listing.{concat, IsListing, list_pages-concat}

abbrev dumps : Value → Text
dumps v = lit "{}"

abbrev stale : Account
stale = scripted (token_answer ∷ answer 200 (string []) ∷ [])

retry_fresh_example :
    (last : Request) × IsLast last
      (retry stale dumps
        (lit "POST")
        (lit "u")
        no_arguments
        ((lit "Authorization", lit "Bearer old") ∷ [])
        (answer 401 (string []))
        connected).1
    × (lookup (lit "Authorization") last.headers ≡ some (lit "Bearer new"))
unfolding retry request_with send refresh_access_token refresh_with refresh_request take_token
    token_value token_text expiry auth_headers token_is_fresh token_is_fresh_at no_token
    headers_when bearer lookup lit text_eq item get_value get present str
retry_fresh_example =
    retry_fresh stale dumps (lit "POST") (lit "u") no_arguments
      ((lit "Authorization", lit "Bearer old") ∷ []) (answer 401 (string [])) connected refl refl

normalize_path-IsRooted_example :
    IsRooted (normalize_path (lit "inbox//"))
    × (normalize_path (normalize_path (lit "inbox//")) ≡ normalize_path (lit "inbox//"))
normalize_path-IsRooted_example = normalize_path-IsRooted (lit "inbox//")

normalize_path_test : normalize_path (lit "inbox//") ≡ lit "/inbox"
unfolding normalize_path rstrip_slash rooted lit
normalize_path_test = refl

abbrev entry : Text → Value
entry id = object (
    field (lit ".tag") (string (lit "file"))
      (field (lit "id") (string id) (field (lit "name") (string id) end)))

abbrev first_page : Response
first_page = answer 200 (
    object (
      field (lit "entries") (array (cons (entry (lit "a")) nil))
        (field (lit "has_more") (boolean true) (field (lit "cursor") (string (lit "c")) end))))

abbrev last_page : Response
last_page = answer 200 (
    object (
      field (lit "entries") (array (cons (entry (lit "b")) (cons (object end) nil)))
        (field (lit "has_more") (boolean false) end)))

abbrev paged : Account
paged = scripted (last_page ∷ [])

abbrev file : Text → RemoteFile
file id = record { id = id; name = id }

-- The service ends the listing with the second page.
abbrev asked : Session
asked = (continue_listing paged dumps (string (lit "c")) connected).1

abbrev pages : List (List RemoteFile)
pages = (file (lit "a") ∷ []) ∷ (file (lit "b") ∷ []) ∷ []

two_pages : IsListing paged dumps first_page connected pages asked
unfolding list_pages read_page continue_listing request raw_request retry request_with checked
    is_file file_of files_of entries_of has_more next_cursor concat IsListing send token_text
    auth_headers token_is_fresh token_is_fresh_at no_token headers_when bearer lit text_eq item
    get_value get present items iterate str truthy
two_pages = (string (lit "c"), connected, last_page, asked, refl, refl, refl)

list_pages-concat_example :
    list_pages paged dumps 2 [] first_page connected ≡ (ok (some (concat pages)), asked)
list_pages-concat_example =
    list_pages-concat paged dumps 2 [] first_page connected pages asked two_pages (omega arith)

upload_file_test :
    (upload_file
      (scripted (answer 200 (named (lit "id:1") (lit "chat (1).txt")) ∷ []))
      dumps
      (lit "chat.txt")
      (lit "PK")
      connected).0
    ≡ ok (record { id = lit "id:1"; name = lit "chat (1).txt" })
unfolding upload_file folder_path normalize_path rstrip_slash rooted raw_request retry request_with
    request checked send token_text auth_headers token_is_fresh token_is_fresh_at no_token
    headers_when bearer lit text_eq item get_value get present str
upload_file_test = refl

-- The folder is there already (a conflict), and the file is moved into it.
move_file_test :
    (move_file
      (scripted (
        record (answer 409 (string [])) { text = lit "path/conflict/folder/." }
        ∷ answer 200 (string [])
        ∷ []))
      dumps
      (file (lit "a"))
      FileDestination.failed
      connected).1.failed_folder
    ≡ some (lit "/chats/inbox/failed")
unfolding destination_name move_file ensure_destination_folder is_ensured ensure is_created
    after_create destination_path folder_path normalize_path rstrip_slash rooted raw_request retry
    request_with request checked send token_text auth_headers token_is_fresh token_is_fresh_at
    no_token headers_when bearer lit text_eq contains starts_with
move_file_test = refl

list_new_files_test :
    (list_new_files (scripted (last_page ∷ [])) dumps 1 connected).0
    ≡ ok (some (file (lit "b") ∷ []))
unfolding list_pages read_page continue_listing request raw_request retry request_with checked
    is_file file_of files_of entries_of has_more next_cursor list_new_files folder_path
    normalize_path rstrip_slash rooted send token_text auth_headers token_is_fresh token_is_fresh_at
    no_token headers_when bearer lit text_eq item get_value get present items iterate str truthy
list_new_files_test = refl

download_file_test :
    (download_file (scripted (answer 200 (string []) ∷ [])) dumps (file (lit "a")) connected).0
    ≡ ok (lit "PK")
unfolding download_file request raw_request retry request_with checked send token_text auth_headers
    token_is_fresh token_is_fresh_at no_token headers_when bearer lit
download_file_test = refl
