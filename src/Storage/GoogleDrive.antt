-- ===== src/Storage/GoogleDrive.antt =====
-- `GoogleDriveStorageProvider` of app/services/storage/google_drive.py.
pub mod Retry
pub mod Quoting
pub mod Tests
use event_creator.Prelude.{
  ℕ, ◌+◌, Bool, true, false, Option, none, some, List, [], ◌∷◌, ◌++◌, leb, ◌==◌, not, map,
  if◌then◌else◌,
}
use event_creator.Python.Text.{Text, lit, str_ℕ, split}
use event_creator.Python.Exception.{Exception, Result, ok, err}
use event_creator.Python.Json.{
  Value, Items, Fields, string, array, object, nil, cons, end, field, get_value, item, iterate, str,
}
use event_creator.Python.State.{Method, resume, ◌>>=◌, ◌>>◌, return, raise, outcome, read, write}
use event_creator.Database.{RemoteFile, FileDestination}
use event_creator.Storage.Http.{Pairs, Body, no_body, json, content, Request, Response}
use event_creator.Storage.Token.{
  Account, Session, service_error, send, refresh_access_token, auth_headers,
}

abbrev drive_api : Text
drive_api = lit "https://www.googleapis.com/drive/v3"

abbrev drive_upload_url : Text
drive_upload_url = lit "https://www.googleapis.com/upload/drive/v3/files"

abbrev folder_mime : Text
folder_mime = lit "application/vnd.google-apps.folder"

-- `_escape_query_value`: no backslash that the first replacement writes is changed by the second.
unfoldable pub escape_query_value : Text → Text
escape_query_value [] = []
escape_query_value (c ∷ t) =
    let rest = escape_query_value t in
    if c == 0x5C then 0x5C ∷ 0x5C ∷ rest else if c == 0x27 then 0x5C ∷ 0x27 ∷ rest else c ∷ rest

-- A value between the single quotes of a query.
pub quoted : Text → Text
unfolding escape_query_value
quoted value = lit "'" ++ (escape_query_value value ++ lit "'")

-- `destination.value`
unfoldable pub destination_name : FileDestination → Text
destination_name FileDestination.processed = lit "processed"
destination_name FileDestination.failed = lit "failed"

-- `self._destination_folder_ids`
cached_folder : FileDestination → Session → Option Text
cached_folder FileDestination.processed self = self.processed_folder
cached_folder FileDestination.failed self = self.failed_folder

cache_folder : FileDestination → Text → Session → Session
cache_folder FileDestination.processed id self = record self { processed_folder = some id }
cache_folder FileDestination.failed id self = record self { failed_folder = some id }

-- `[s for s in path.split("/") if s]`
segments : List Text → List Text
segments [] = []
segments ([] ∷ rest) = segments rest
segments ((c ∷ t) ∷ rest) = (c ∷ t) ∷ segments rest

-- The keyword arguments of `_request`.
pub record Arguments : Type 0 where
  pub params : Pairs
  pub headers : Pairs
  pub body : Body

abbrev no_arguments : Arguments
no_arguments = record { params = []; headers = []; body = no_body }

-- `body.get("name", name)`
or_name : Text → Option Value → Value
or_name name none = string name
or_name name (some value) = value

module _ (account : Account) where
  request_with : Text → Text → Arguments → Pairs → Request
  request_with method url arguments headers = record {
    method = method;
    url = url;
    params = arguments.params;
    headers = headers;
    body = arguments.body;
  }

  checked : Text → Text → Response → Method Session Response
  checked method url response =
      if leb 400 response.status_code
      then raise (
          service_error (
            lit "Drive API "
            ++ (method
                ++ (lit " "
                    ++ (url ++ (lit " failed (" ++ (str_ℕ response.status_code ++ lit ")")))))))
      else return response

  -- After a 401. The entries of `headers`, the first attempt's, come after the fresh ones in
  -- `{**fresh, **headers}`, and so win.
  pub retry : Text → Text → Arguments → Pairs → Response → Method Session Response
  unfolding request_with
  retry method url arguments headers response = elim (response.status_code == 401) [
    | false ↦ return response
    | true ↦ do
      refresh_access_token account
      fresh ← auth_headers account
      send account (request_with method url arguments (headers ++ fresh))
  ]

  pub request : Text → Text → Arguments → Method Session Response
  unfolding request_with
  request method url arguments = do
    fresh ← auth_headers account
    response ← send account (request_with method url arguments (arguments.headers ++ fresh))
    answer ← retry method url arguments (arguments.headers ++ fresh) response
    checked method url answer

  -- `str(files[0]["id"]) if files else None`
  first_id : List Value → Result (Option Text)
  first_id [] = ok none
  first_id (file ∷ files) = elim (item (lit "id") file) [
    | ok id ↦ ok (some (str account.python id))
    | err e ↦ err e
  ]

  -- `response.json().get("files", [])`
  listed : Option Value → Result (List Value)
  listed none = ok []
  listed (some files) = iterate files

  files_of : Response → Method Session (List Value)
  files_of response = do
    payload ← outcome response.json
    files ← outcome (get_value (lit "files") payload)
    outcome (listed files)

  list_request : Text → Arguments
  list_request query = record no_arguments {
    params = (lit "q", query) ∷ (lit "fields", lit "files(id,name)") ∷ [];
  }

  pub find_child_folder : Text → Text → Method Session (Option Text)
  find_child_folder parent_id name = do
    response ← request (lit "GET") (drive_api ++ lit "/files") (
        list_request (
          quoted parent_id
          ++ (lit " in parents and name = "
              ++ (quoted name
                  ++ (lit " and mimeType = '" ++ (folder_mime ++ lit "' and trashed = false"))))))
    files ← files_of response
    outcome (first_id files)

  create_child_folder : Text → Text → Method Session Text
  create_child_folder parent_id name = do
    response ← request (lit "POST") (drive_api ++ lit "/files") (record no_arguments {
      body = json (
          object (
            field (lit "name") (string name) (
              field (lit "mimeType") (string folder_mime)
                (field (lit "parents") (array (cons (string parent_id) nil)) end))));
    })
    payload ← outcome response.json
    id ← outcome (item (lit "id") payload)
    return (str account.python id)

  found_segment : Text → Option Text → Method Session Text
  found_segment segment none =
      raise
        (service_error (lit "watch folder segment '" ++ (segment ++ lit "' not found in Drive")))
  found_segment segment (some id) = return id

  -- The loop over the segments, from `parent`.
  traverse : Text → List Text → Method Session Text
  traverse parent [] = return parent
  traverse parent (segment ∷ rest) = do
    found ← find_child_folder parent segment
    id ← found_segment segment found
    traverse id rest

  watch_folder_from : Option Text → Method Session Text
  watch_folder_from (some id) = return id
  watch_folder_from none = do
    parent ← traverse (lit "root") (segments (split 0x2F account.folder_path))
    write (λ self. record self { watch_folder_id = some parent })
    return parent

  pub watch_folder : Method Session Text
  watch_folder = do cached ← read (λ self. self.watch_folder_id); watch_folder_from cached

  -- `found or create`: an empty identifier counts as not found.
  or_create : Text → FileDestination → Option Text → Method Session Text
  or_create watch_id destination none = create_child_folder watch_id (destination_name destination)
  or_create watch_id destination (some []) =
      create_child_folder watch_id (destination_name destination)
  or_create watch_id destination (some (c ∷ id)) = return (c ∷ id)

  destination_from : FileDestination → Option Text → Method Session Text
  destination_from destination (some id) = return id
  destination_from destination none = do
    watch_id ← watch_folder
    found ← find_child_folder watch_id (destination_name destination)
    folder_id ← or_create watch_id destination found
    write (cache_folder destination folder_id)
    return folder_id

  pub destination_folder : FileDestination → Method Session Text
  destination_folder destination = do
    cached ← read (cached_folder destination)
    destination_from destination cached

  pub upload_file : Text → List ℕ → Method Session RemoteFile
  upload_file name bytes = do
    watch_id ← watch_folder
    created ← request (lit "POST") (drive_api ++ lit "/files") (record no_arguments {
      body = json (
          object (
            field (lit "name") (string name)
              (field (lit "parents") (array (cons (string watch_id) nil)) end)));
    })
    metadata ← outcome created.json
    file_id ← outcome (item (lit "id") metadata)
    uploaded ←
        request (lit "PATCH") (drive_upload_url ++ (lit "/" ++ str account.python file_id))
          (record {
            params = (lit "uploadType", lit "media") ∷ [];
            headers = (lit "Content-Type", lit "application/octet-stream") ∷ [];
            body = content bytes;
          })
    body ← outcome uploaded.json
    id ← outcome (item (lit "id") body)
    answered ← outcome (get_value (lit "name") body)
    return
        (record { id = str account.python id; name = str account.python (or_name name answered) })

  remote_files : List Value → Result (List RemoteFile)
  remote_files [] = ok []
  remote_files (file ∷ files) =
      let rest = remote_files files in
      elim (item (lit "id") file) [
        | err e ↦ err e
        | ok id ↦ elim (item (lit "name") file) [
          | err e ↦ err e
          | ok name ↦ elim rest [
            | err e ↦ err e
            | ok more ↦
                ok (record { id = str account.python id; name = str account.python name } ∷ more)
          ]
        ]
      ]

  pub list_new_files : Method Session (List RemoteFile)
  list_new_files = do
    watch_id ← watch_folder
    response ← request (lit "GET") (drive_api ++ lit "/files") (
        list_request (
          quoted watch_id
          ++ (lit " in parents and trashed = false and mimeType != '" ++ (folder_mime ++ lit "'"))))
    files ← files_of response
    outcome (remote_files files)

  pub download_file : RemoteFile → Method Session (List ℕ)
  download_file file = do
    response ←
        request (lit "GET") (drive_api ++ (lit "/files/" ++ file.id))
          (record no_arguments { params = (lit "alt", lit "media") ∷ [] })
    return response.content

  pub move_file : RemoteFile → FileDestination → Method Session (Unit {0})
  move_file file destination = do
    watch_id ← watch_folder
    dest_id ← destination_folder destination
    request (lit "PATCH") (drive_api ++ (lit "/files/" ++ file.id)) (record no_arguments {
      params = (lit "addParents", dest_id) ∷ (lit "removeParents", watch_id) ∷ [];
    })
    return tt
