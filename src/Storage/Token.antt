-- ===== src/Storage/Token.antt =====
-- The access token of a connected account and its refresh, which
-- app/services/storage/google_drive.py and app/services/storage/dropbox.py have in common: the
-- provider's fields that change, `_token_is_fresh`, `_refresh_access_token` and `_auth_headers`.
use event_creator.Prelude.{
  ℕ, ◌+◌, Bool, true, false, Option, none, some, List, [], ◌∷◌, ◌++◌, ltb, ◌==◌,
}
use event_creator.Python.Text.{Text, lit, str_ℕ}
use event_creator.Python.Exception.{Exception, ok, storage_error}
use event_creator.Python.Json.{Value, null, Builtins, get_value, item, str, truthy}
use event_creator.Python.State.{Method, ◌>>=◌, ◌>>◌, return, raise, outcome, read, write}
use event_creator.Storage.Http.{Pairs, form, Request, Response, Service}

-- What a provider is constructed with; the names of the service in its URLs and error messages.
pub record Account : Type 0 where
  pub python : Builtins
  pub service : Service
  -- `datetime.now(timezone.utc)` in seconds, at each reading
  pub clock : ℕ → ℕ
  pub folder_path : Text
  pub refresh_token : Option Text
  pub client_id : Text
  pub client_secret : Text
  pub token_url : Text
  pub service_name : Text

-- The fields that change: the token, the cached folders (`_watch_folder_id` and the folders of the
-- destinations), and the requests sent, newest first.
pub record Session : Type 0 where
  pub access_token : Option Text
  pub token_expires_at : Option ℕ
  pub watch_folder_id : Option Text
  pub processed_folder : Option Text
  pub failed_folder : Option Text
  pub reads : ℕ
  pub sent : List Request

-- `_EXPIRY_SKEW`
abbrev pub expiry_skew : ℕ
expiry_skew = 60

-- `GoogleDriveError(message)`, `DropboxError(message)`
abbrev pub service_error : Text → Exception
service_error message = storage_error message

-- A token that is `None` or empty.
unfoldable pub no_token : Option Text → Bool
no_token none = true
no_token (some []) = true
no_token (some (c ∷ t)) = false

-- `payload["access_token"]` is a string or null.
unfoldable pub token_value : Builtins → Value → Option Text
token_value python null = none
token_value python value = some (str python value)

-- What an f-string writes for the token.
unfoldable pub token_text : Option Text → Text
token_text none = lit "None"
token_text (some t) = t

unfoldable pub expires_before : ℕ → Option ℕ → Bool
expires_before now none = true
expires_before now (some expires_at) = ltb (now + expiry_skew) expires_at

module _ (account : Account) where
  -- `self._client.request(...)`
  unfoldable pub send : Request → Method Session Response
  send request self =
      (account.service self.sent request, record self { sent = request ∷ self.sent })

  unfoldable pub now : Method Session ℕ
  now self = (ok (account.clock self.reads), record self { reads = self.reads + 1 })

  -- The clock is read only where it is needed.
  unfoldable pub token_is_fresh_at : Option Text → Option ℕ → Method Session Bool
  unfolding expires_before now no_token
  token_is_fresh_at token expires_at = elim (no_token token) [
    | true ↦ return false
    | false ↦ elim expires_at [
      | none ↦ return true
      | some at ↦ do time ← now; return (expires_before time (some at))
    ]
  ]

  unfoldable pub token_is_fresh : Method Session Bool
  token_is_fresh = do
    token ← read (λ self. self.access_token)
    expires_at ← read (λ self. self.token_expires_at)
    token_is_fresh_at token expires_at

  unfoldable pub refresh_request : Text → Request
  refresh_request refresh_token = record {
    method = lit "POST";
    url = account.token_url;
    params = [];
    headers = [];
    body = form (
        (lit "client_id", account.client_id)
        ∷ (lit "client_secret", account.client_secret)
        ∷ (lit "refresh_token", refresh_token)
        ∷ (lit "grant_type", lit "refresh_token")
        ∷ []);
  }

  -- `datetime.now() + timedelta(seconds=int(expires_in)) if expires_in else None`
  unfoldable pub expiry : Option Value → Method Session (Option ℕ)
  expiry none = return none
  expiry (some expires_in) = elim (truthy account.python expires_in) [
    | false ↦ return none
    | true ↦ do
      time ← now
      seconds ← outcome (account.python.int expires_in)
      return (some (time + seconds))
  ]

  -- The new token is in place before its expiry is read.
  unfoldable pub take_token : Response → Method Session (Unit {0})
  unfolding token_value
  take_token response = do
    payload ← outcome response.json
    token ← outcome (item (lit "access_token") payload)
    write (λ self. record self { access_token = token_value account.python token })
    expires_in ← outcome (get_value (lit "expires_in") payload)
    expires_at ← expiry expires_in
    write (λ self. record self { token_expires_at = expires_at })

  unfoldable pub refresh_with : Option Text → Method Session (Unit {0})
  refresh_with none = raise (
      service_error
        (lit "no refresh token available to obtain " ++ (account.service_name ++ lit " access")))
  refresh_with (some []) = raise (
      service_error
        (lit "no refresh token available to obtain " ++ (account.service_name ++ lit " access")))
  refresh_with (some (c ∷ t)) = do
    response ← send (refresh_request (c ∷ t))
    elim (response.status_code == 200) [
      | true ↦ take_token response
      | false ↦
          raise (
            service_error (lit "token refresh failed (" ++ (str_ℕ response.status_code ++ lit ")")))
    ]

  unfoldable pub refresh_access_token : Method Session (Unit {0})
  unfolding refresh_with
  refresh_access_token = refresh_with account.refresh_token

  unfoldable pub bearer : Method Session Pairs
  unfolding token_text
  bearer = do
    token ← read (λ self. self.access_token)
    return ((lit "Authorization", lit "Bearer " ++ token_text token) ∷ [])

  unfoldable pub headers_when : Bool → Method Session Pairs
  headers_when true = bearer
  headers_when false = do refresh_access_token; bearer

  unfoldable pub auth_headers : Method Session Pairs
  auth_headers = do fresh ← token_is_fresh; headers_when fresh
