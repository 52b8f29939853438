-- ===== src/Storage/GoogleDrive/Tests.antt =====
-- The Drive provider over a scripted service, and its properties at concrete inputs.
use event_creator.Prelude.{◌≡◌, refl, some, [], ◌∷◌, ◌++◌}
use event_creator.Python.Text.{lit, text_eq, split}
use event_creator.Python.Exception.{ok}
use event_creator.Python.Json.{
  Value, string, array, object, field, end, cons, nil, item, get_value, get, present, items,
  iterate, str,
}
use event_creator.Database.{FileDestination}
use event_creator.Storage.Http.{Request, Response, lookup}
use event_creator.Storage.Token.{
  Account, Session, send, now, token_is_fresh_at, token_is_fresh, refresh_request, expiry,
  take_token, token_value, token_text, no_token, expires_before, refresh_with, refresh_access_token,
  bearer, headers_when, auth_headers,
}
use event_creator.Storage.Calls.{Sends}
use event_creator.Storage.Samples.{scripted, connected, answer, named, token_answer}
use event_creator.Storage.GoogleDrive.{
  no_arguments, escape_query_value, quoted, segments, cached_folder, cache_folder, request_with,
  checked, retry, request, first_id, listed, files_of, list_request, find_child_folder,
  create_child_folder, found_segment, traverse, watch_folder_from, watch_folder, or_create,
  destination_from, destination_folder, upload_file, remote_files, list_new_files, download_file,
  move_file, or_name,
}
use event_creator.Storage.GoogleDrive.Quoting.{read_literal, read_literal-quoted}
use event_creator.Storage.GoogleDrive.Retry.{IsLast, retry_stale, request-Sends}

-- An answer to a query with these files.
abbrev found : Value → Response
found file = answer 200 (object (field (lit "files") (array (cons file nil)) end))

abbrev stale : Account
stale = scripted (token_answer ∷ answer 200 (named (lit "f") (lit "chat.txt")) ∷ [])

retry_stale_example :
    (last : Request) × IsLast last
      (retry stale
        (lit "GET")
        (lit "u")
        no_arguments
        ((lit "Authorization", lit "Bearer old") ∷ [])
        (answer 401 (string []))
        connected).1
    × (lookup (lit "Authorization") last.headers ≡ some (lit "Bearer old"))
unfolding retry request_with send refresh_access_token refresh_with refresh_request take_token
    token_value expiry auth_headers token_is_fresh token_is_fresh_at no_token headers_when bearer
    lookup lit text_eq item get_value get present items iterate str split
retry_stale_example =
    retry_stale stale (lit "GET") (lit "u") no_arguments
      ((lit "Authorization", lit "Bearer old") ∷ []) (answer 401 (string [])) connected
      (lit "Authorization") refl refl refl

request-Sends_example : Sends 5 (request stale (lit "GET") (lit "u") no_arguments)
request-Sends_example = request-Sends stale (lit "GET") (lit "u") no_arguments

-- The folder is found segment by segment, and the file in it.
abbrev folders : Account
folders = scripted (
    found (named (lit "a") (lit "chats"))
    ∷ found (named (lit "b") (lit "inbox"))
    ∷ found (named (lit "f") (lit "chat.txt"))
    ∷ [])

list_new_files_test :
    (list_new_files folders connected).0 ≡ ok (record { id = lit "f"; name = lit "chat.txt" } ∷ [])
unfolding list_new_files watch_folder watch_folder_from traverse segments found_segment
    find_child_folder list_request request request_with checked retry first_id listed files_of
    remote_files send auth_headers token_is_fresh token_is_fresh_at no_token headers_when bearer
    token_text expires_before now quoted escape_query_value lit text_eq item get_value get present
    items iterate str split
list_new_files_test = refl

-- The watch folder is known; the destination is created; the file is moved.
abbrev moving : Account
moving = scripted (
    answer 200 (object (field (lit "files") (array nil) end))
    ∷ answer 200 (named (lit "p") (lit "processed"))
    ∷ answer 200 (named (lit "f") (lit "chat.txt"))
    ∷ [])

abbrev watching : Session
watching = record connected { watch_folder_id = some (lit "b") }

move_file_test :
    (move_file moving
      (record { id = lit "f"; name = lit "chat.txt" })
      FileDestination.processed
      watching).1.processed_folder
    ≡ some (lit "p")
unfolding move_file watch_folder watch_folder_from destination_folder destination_from cached_folder
    cache_folder or_create create_child_folder find_child_folder list_request request request_with
    checked retry first_id listed files_of send auth_headers token_is_fresh token_is_fresh_at
    no_token headers_when bearer token_text quoted escape_query_value lit text_eq item get_value get
    present items iterate str split
move_file_test = refl

upload_file_test :
    (upload_file
      (scripted (
        answer 200 (named (lit "f") (lit "x"))
        ∷ answer 200 (named (lit "f") (lit "chat.txt"))
        ∷ []))
      (lit "chat.txt")
      (lit "PK")
      watching).0
    ≡ ok (record { id = lit "f"; name = lit "chat.txt" })
unfolding upload_file or_name watch_folder watch_folder_from request request_with checked retry send
    auth_headers token_is_fresh token_is_fresh_at no_token headers_when bearer token_text lit
    text_eq item get_value get present items iterate str split
upload_file_test = refl

download_file_test :
    (download_file
      (scripted (answer 200 (string []) ∷ []))
      (record { id = lit "f"; name = lit "chat.txt" })
      watching).0
    ≡ ok (lit "PK")
unfolding download_file request request_with checked retry send auth_headers token_is_fresh
    token_is_fresh_at no_token headers_when bearer token_text lit text_eq item get_value get present
    items iterate str split
download_file_test = refl

read_literal-quoted_example :
    read_literal (quoted (lit "Ann's") ++ lit " in parents") ≡ some (lit "Ann's", lit " in parents")
read_literal-quoted_example = read_literal-quoted (lit "Ann's") (lit " in parents")
