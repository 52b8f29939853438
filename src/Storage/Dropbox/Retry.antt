-- ===== src/Storage/Dropbox/Retry.antt =====
-- The second attempt of a Dropbox request (`_raw_request` of app/services/storage/dropbox.py).
use event_creator.Prelude.{
  ◌≡◌, refl, sym, ap, Bool, true, false, some, [], ◌∷◌, ◌++◌, ==_iff, arith,
}
use event_creator.Python.Text.{Text, lit, text_eq_refl}
use event_creator.Python.Exception.{ok}
use event_creator.Python.Json.{Value}
use event_creator.Python.State.{>>=-returned}
use event_creator.Storage.Http.{Pairs, Request, Response, lookup}
use event_creator.Storage.Token.{
  Account, Session, send, token_is_fresh, refresh_access_token, bearer, headers_when, auth_headers,
  token_text,
}
use event_creator.Storage.GoogleDrive.{Arguments}
use event_creator.Storage.GoogleDrive.Retry.{IsLast, send-IsLast}
use event_creator.Storage.Dropbox.{request_with, retry, request}

-- The header with the token that the provider holds.
pub authorization : Session → Pairs
authorization self = (lit "Authorization", lit "Bearer " ++ token_text self.access_token) ∷ []

module _ (account : Account) where
  bearer_lem :
      (self : Session) {fresh : Pairs} {final : Session}
      → bearer account self ≡ (ok fresh, final)
      → fresh ≡ authorization final
  unfolding bearer authorization
  bearer_lem self {fresh} {final} h = let same : self ≡ final = ap (λ p. p.1) h in ground arith

  headers_when_lem :
      (is_fresh : Bool) (self : Session) {fresh : Pairs} {final : Session}
      → headers_when account is_fresh self ≡ (ok fresh, final)
      → fresh ≡ authorization final
  unfolding headers_when
  headers_when_lem true self h = bearer_lem self h
  headers_when_lem false self h =
      let (_, _, after) = >>=-returned (refresh_access_token account) _ self h in bearer_lem _ after

  auth_headers_lem :
      (self : Session) {fresh : Pairs} {final : Session}
      → auth_headers account self ≡ (ok fresh, final)
      → fresh ≡ authorization final
  unfolding auth_headers
  auth_headers_lem self h =
      let (is_fresh, _, after) = >>=-returned (token_is_fresh account) _ self h in
      headers_when_lem is_fresh _ after

  send_keeps :
      (request : Request) (self : Session) {response : Response} {final : Session}
      → send account request self ≡ (ok response, final)
      → final.access_token ≡ self.access_token
  unfolding send
  send_keeps request self h = sym (ap (λ p. p.1.access_token) h)

  lookup-authorization :
      (self : Session) (headers : Pairs)
      → lookup (lit "Authorization") (authorization self ++ headers)
        ≡ some (lit "Bearer " ++ token_text self.access_token)
  unfolding lookup authorization
  lookup-authorization self headers = rw (text_eq_refl (lit "Authorization")) refl

  module _ (dumps : Value → Text) (method url : Text) (arguments : Arguments) where
    -- When an answer of 401 has led to a second attempt that was answered, the second attempt carries
    -- the token that the provider now holds.
    pub retry_fresh :
        (headers : Pairs) (response : Response) (self : Session) {answer : Response}
        {final : Session}
        → response.status_code ≡ 401
        → retry account dumps method url arguments headers response self ≡ (ok answer, final)
        → (last : Request) × IsLast last final
          × (lookup (lit "Authorization") last.headers
              ≡ some (lit "Bearer " ++ token_text final.access_token))
    unfolding retry request_with
    retry_fresh headers response self unauthorized done =
        let again = rw (retry, (==_iff response.status_code 401).1 unauthorized) at done in
        let (_, _, after_refresh) = >>=-returned (refresh_access_token account) _ self again in
        let (fresh, found, sent) = >>=-returned (auth_headers account) _ _ after_refresh in
        let after : Session = (auth_headers account (refresh_access_token account self).1).1 in
        let current = auth_headers_lem _ (ap (λ r. (r, after)) found) in
        (
          request_with account dumps method url arguments (fresh ++ headers),
          send-IsLast account _ _ sent,
          rw (current, send_keeps _ after sent) (lookup-authorization after headers),
        )
