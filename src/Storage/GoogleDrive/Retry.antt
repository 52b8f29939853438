-- ===== src/Storage/GoogleDrive/Retry.antt =====
-- The second attempt of a Drive request (`_request` of app/services/storage/google_drive.py).
use event_creator.Prelude.{◌≡◌, sym, ap, some, List, [], ◌∷◌, ◌++◌, ◌==◌, ==_iff, arith}
use event_creator.Python.Text.{Text}
use event_creator.Python.Exception.{ok}
use event_creator.Python.State.{>>=-returned}
use event_creator.Storage.Http.{Pairs, Request, Response, lookup}
use event_creator.Storage.Token.{Account, Session, send, refresh_access_token, auth_headers}
use event_creator.Storage.Calls.{
  Sends, Sends-bind, Sends-cases, Sends-return, send-Sends, refresh_access_token-Sends,
  auth_headers-Sends,
}
use event_creator.Storage.GoogleDrive.{Arguments, request_with, checked, retry, request}

-- A header of the first list hides one of the second.
pub lookup-append :
    (name : Text) (first second : Pairs) {value : Text}
    → lookup name first ≡ some value
    → lookup name (first ++ second) ≡ some value
unfolding lookup
lookup-append name [] second h = cc
lookup-append name (p ∷ first) second {value = value} h =
    ground (arith, lookup-append name first second {value = value})

-- The last request that was sent.
abbrev pub IsLast : Request → Session → Type 0
IsLast request self = (earlier : List Request) × (self.sent ≡ request ∷ earlier)

pub send-IsLast :
    (account : Account) (request : Request) (self : Session) {response : Response} {final : Session}
    → send account request self ≡ (ok response, final)
    → IsLast request final
unfolding send
send-IsLast account request self h = (self.sent, sym (ap (λ p. p.1.sent) h))

module _ (account : Account) (method url : Text) (arguments : Arguments) where
  -- When an answer of 401 has led to a second attempt that was answered, the second attempt carries
  -- every header of the first with its old value, the `Authorization` header too: the token that
  -- was just refreshed is not used.
  pub retry_stale :
      (headers : Pairs) (response : Response) (self : Session) {answer : Response} {final : Session}
      (name : Text) {value : Text}
      → response.status_code ≡ 401
      → retry account method url arguments headers response self ≡ (ok answer, final)
      → lookup name headers ≡ some value
      → (last : Request) × IsLast last final × (lookup name last.headers ≡ some value)
  unfolding retry request_with
  retry_stale headers response self name unauthorized done old =
      let again = rw (retry, (==_iff response.status_code 401).1 unauthorized) at done in
      let (_, _, after_refresh) = >>=-returned (refresh_access_token account) _ self again in
      let (fresh, _, sent) = >>=-returned (auth_headers account) _ _ after_refresh in
      (
        request_with account method url arguments (headers ++ fresh),
        send-IsLast account _ _ sent,
        lookup-append name headers fresh old,
      )

  retry-Sends :
      (headers : Pairs) (response : Response)
      → Sends 3 (retry account method url arguments headers response)
  unfolding retry
  retry-Sends headers response =
      Sends-cases 3 (response.status_code == 401) _ _
        (Sends-bind 1 2 (refresh_access_token account) _ (refresh_access_token-Sends account) λ _.
          Sends-bind 1 1 (auth_headers account) _ (auth_headers-Sends account)
            λ fresh. send-Sends account _)
        (Sends-return 3 response)

  checked-Sends : (response : Response) → Sends 0 (checked account method url response)
  unfolding checked
  checked-Sends response = record { at = λ self. ground arith }

  -- A request of the provider sends at most five HTTP requests, whatever the service answers: the
  -- retry is tried once.
  pub request-Sends : Sends 5 (request account method url arguments)
  unfolding request
  request-Sends = Sends-bind 1 4 (auth_headers account) _ (auth_headers-Sends account) λ fresh.
      Sends-bind 1 3 (send account _) _ (send-Sends account _) λ response.
        Sends-bind 3 0 (retry account method url arguments _ response) _ (retry-Sends _ response)
          λ answer. checked-Sends answer
