-- ===== src/Storage/Dropbox.antt =====
-- `DropboxStorageProvider` of app/services/storage/dropbox.py.
pub mod Retry
pub mod Paths
pub mod Listing
pub mod Tests
use event_creator.Prelude.{
  ℕ, zero, suc, ◌+◌, Bool, true, false, Option, none, some, List, [], ◌∷◌, ◌++◌, leb, ◌==◌, ◌&&◌,
  ◌||◌, not, map, if◌then◌else◌,
}
use event_creator.Python.Text.{Text, lit, str_ℕ, text_eq, contains, starts_with, lstrip_while}
use event_creator.Python.Exception.{Exception, Result, ok, err}
use event_creator.Python.Json.{
  Value, Items, Fields, boolean, string, array, object, nil, cons, end, field, get_value, item,
  iterate, str, truthy,
}
use event_creator.Python.State.{Method, resume, ◌>>=◌, ◌>>◌, return, raise, outcome, read, write}
use event_creator.Database.{RemoteFile, FileDestination}
use event_creator.Storage.Http.{Pairs, Body, no_body, json, content, Request, Response}
use event_creator.Storage.Token.{
  Account, Session, service_error, send, refresh_access_token, auth_headers,
}
use event_creator.Storage.GoogleDrive.{Arguments, destination_name}

abbrev dropbox_api : Text
dropbox_api = lit "https://api.dropboxapi.com/2"

abbrev dropbox_content_api : Text
dropbox_content_api = lit "https://content.dropboxapi.com/2"

abbrev folder_conflict_error_tag : Text
folder_conflict_error_tag = lit "path/conflict/folder/"

-- `path.rstrip("/")`
rstrip_slash : Text → Text
rstrip_slash [] = []
rstrip_slash (c ∷ t) = elim (rstrip_slash t) [
  | [] ↦ if c == 0x2F then [] else c ∷ []
  | d ∷ rest ↦ c ∷ d ∷ rest
]

rooted : Text → Text
rooted [] = []
rooted (c ∷ t) = if c == 0x2F then c ∷ t else 0x2F ∷ c ∷ t

-- `_normalize_path`
pub normalize_path : Text → Text
unfolding rstrip_slash rooted
normalize_path path = rooted (rstrip_slash path)

abbrev no_arguments : Arguments
no_arguments = record { params = []; headers = []; body = no_body }

is_ensured : FileDestination → Session → Bool
is_ensured FileDestination.processed self = elim self.processed_folder [
  | none ↦ false
  | some _ ↦ true
]
is_ensured FileDestination.failed self = elim self.failed_folder [ none ↦ false | some _ ↦ true ]

-- The set has no more than the destination; the path is computed each time.
ensure : FileDestination → Text → Session → Session
ensure FileDestination.processed path self = record self { processed_folder = some path }
ensure FileDestination.failed path self = record self { failed_folder = some path }

module _ (account : Account) (dumps : Value → Text) where
  folder_path : Text
  unfolding normalize_path
  folder_path = normalize_path account.folder_path

  request_with : Text → Text → Arguments → Pairs → Request
  request_with method url arguments headers = record {
    method = method;
    url = url;
    params = arguments.params;
    headers = headers;
    body = arguments.body;
  }

  -- After a 401. In `{**headers, **fresh}` the fresh entries win.
  pub retry : Text → Text → Arguments → Pairs → Response → Method Session Response
  unfolding request_with
  retry method url arguments headers response = elim (response.status_code == 401) [
    | false ↦ return response
    | true ↦ do
      refresh_access_token account
      fresh ← auth_headers account
      send account (request_with method url arguments (fresh ++ headers))
  ]

  raw_request : Text → Text → Arguments → Method Session Response
  unfolding request_with
  raw_request method url arguments = do
    fresh ← auth_headers account
    response ← send account (request_with method url arguments (arguments.headers ++ fresh))
    retry method url arguments (arguments.headers ++ fresh) response

  checked : Text → Text → Response → Method Session Response
  checked method url response =
      if leb 400 response.status_code
      then raise (
          service_error (
            lit "Dropbox API "
            ++ (method
                ++ (lit " "
                    ++ (url ++ (lit " failed (" ++ (str_ℕ response.status_code ++ lit ")")))))))
      else return response

  pub request : Text → Text → Arguments → Method Session Response
  request method url arguments = do
    response ← raw_request method url arguments
    checked method url response

  destination_path : FileDestination → Text
  destination_path destination = folder_path ++ (lit "/" ++ destination_name destination)

  -- The folder was created, or was there.
  is_created : Response → Bool
  is_created response =
      (response.status_code == 200)
      || ((response.status_code == 409) && contains folder_conflict_error_tag response.text)

  after_create : FileDestination → Response → Method Session Text
  after_create destination response = elim (is_created response) [
    | true ↦ do
      write (ensure destination (destination_path destination))
      return (destination_path destination)
    | false ↦ raise (
        service_error (
          lit "failed to create Dropbox folder '"
          ++ (destination_path destination
              ++ (lit "' (" ++ (str_ℕ response.status_code ++ lit ")")))))
  ]

  pub ensure_destination_folder : FileDestination → Method Session Text
  ensure_destination_folder destination = do
    ensured ← read (is_ensured destination)
    elim ensured [
      | true ↦ return (destination_path destination)
      | false ↦ do
        response ←
            raw_request (lit "POST") (dropbox_api ++ lit "/files/create_folder_v2")
              (record no_arguments {
                body = json (
                    object (
                      field (lit "path") (string (destination_path destination))
                        (field (lit "autorename") (boolean false) end)));
              })
        after_create destination response
    ]

  pub upload_file : Text → List ℕ → Method Session RemoteFile
  upload_file name bytes = do
    response ← request (lit "POST") (dropbox_content_api ++ lit "/files/upload") (record {
      params = [];
      headers =
          (lit "Content-Type", lit "application/octet-stream")
          ∷ (
            lit "Dropbox-API-Arg",
            dumps (
                object (
                  field (lit "path") (string (folder_path ++ (lit "/" ++ name))) (
                    field (lit "mode") (string (lit "add"))
                      (field (lit "autorename") (boolean true) end)))),
          )
          ∷ [];
      body = content bytes;
    })
    body ← outcome response.json
    id ← outcome (item (lit "id") body)
    answered ← outcome (item (lit "name") body)
    return (record { id = str account.python id; name = str account.python answered })

  -- `entry.get(".tag") == "file"`
  is_file : Option Value → Bool
  is_file (some (string t)) = text_eq t (lit "file")
  is_file _ = false

  file_of : Value → Result RemoteFile
  file_of entry = elim (item (lit "id") entry) [
    | err e ↦ err e
    | ok id ↦ elim (item (lit "name") entry) [
      | err e ↦ err e
      | ok name ↦ ok (record { id = str account.python id; name = str account.python name })
    ]
  ]

  -- The files of one page, in its order.
  files_of : List Value → Result (List RemoteFile)
  files_of [] = ok []
  files_of (entry ∷ entries) =
      let rest = files_of entries in
      elim (get_value (lit ".tag") entry) [
        | err e ↦ err e
        | ok tag ↦ elim (is_file tag) [
          | false ↦ rest
          | true ↦ elim (file_of entry) [
            | err e ↦ err e
            | ok file ↦ elim rest [ err e ↦ err e | ok more ↦ ok (file ∷ more) ]
          ]
        ]
      ]

  entries_of : Option Value → Result (List Value)
  entries_of none = ok []
  entries_of (some entries) = iterate entries

  has_more : Option Value → Bool
  has_more none = false
  has_more (some more) = truthy account.python more

  next_cursor : Value → Bool → Result (Option Value)
  next_cursor body false = ok none
  next_cursor body true = elim (item (lit "cursor") body) [
    | ok cursor ↦ ok (some cursor)
    | err e ↦ err e
  ]

  -- One page: its files, and the cursor of the next page where there is one.
  pub read_page : Response → Method Session (List RemoteFile × Option Value)
  read_page response = do
    body ← outcome response.json
    listed ← outcome (get_value (lit "entries") body)
    entries ← outcome (entries_of listed)
    found ← outcome (files_of entries)
    more ← outcome (get_value (lit "has_more") body)
    cursor ← outcome (next_cursor body (has_more more))
    return (found, cursor)

  pub continue_listing : Value → Method Session Response
  continue_listing cursor =
      request (lit "POST") (dropbox_api ++ lit "/files/list_folder/continue")
        (record no_arguments { body = json (object (field (lit "cursor") cursor end)) })

  -- The loop over the pages, from the response with the next one; `none` when the fuel is spent.
  pub list_pages : ℕ → List RemoteFile → Response → Method Session (Option (List RemoteFile))
  list_pages zero files response = return none
  list_pages (suc fuel) files response = do
    page ← read_page response
    elim page.1 [
      | none ↦ return (some (files ++ page.0))
      | some cursor ↦ do next ← continue_listing cursor; list_pages fuel (files ++ page.0) next
    ]

  pub list_new_files : ℕ → Method Session (Option (List RemoteFile))
  list_new_files fuel = do
    response ← request (lit "POST") (dropbox_api ++ lit "/files/list_folder") (record no_arguments {
      body = json (
          object (
            field (lit "path") (string folder_path) (field (lit "recursive") (boolean false) end)));
    })
    list_pages fuel [] response

  pub download_file : RemoteFile → Method Session (List ℕ)
  download_file file = do
    response ←
        request (lit "POST") (dropbox_content_api ++ lit "/files/download") (record no_arguments {
          headers =
              (lit "Dropbox-API-Arg", dumps (object (field (lit "path") (string file.id) end)))
              ∷ [];
        })
    return response.content

  pub move_file : RemoteFile → FileDestination → Method Session (Unit {0})
  move_file file destination = do
    dest_folder ← ensure_destination_folder destination
    request (lit "POST") (dropbox_api ++ lit "/files/move_v2") (record no_arguments {
      body = json (
          object (
            field (lit "from_path") (string file.id) (
              field (lit "to_path") (string (dest_folder ++ (lit "/" ++ file.name)))
                (field (lit "autorename") (boolean true) end))));
    })
    return tt
