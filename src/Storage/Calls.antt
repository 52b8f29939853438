-- ===== src/Storage/Calls.antt =====
-- How many requests the methods of a provider send.
use event_creator.Prelude.{
  ℕ, ◌+◌, ◌≤◌, Bool, true, false, Option, none, some, [], ◌∷◌, length, arith, ◌==◌,
}
use event_creator.Python.Text.{Text, lit}
use event_creator.Python.Exception.{Exception, Result, ok, err}
use event_creator.Python.Json.{Value, truthy, item, get_value}
use event_creator.Python.State.{Method, resume, ◌>>=◌, return, raise, outcome, read, write}
use event_creator.Storage.Http.{Request, Response}
use event_creator.Storage.Token.{
  Account, Session, send, now, token_is_fresh_at, token_is_fresh, refresh_request, expiry,
  take_token, token_value, no_token, expires_before, refresh_with, refresh_access_token, bearer,
  headers_when, auth_headers,
}

-- Whatever comes of it, the method sends at most so many requests.
pub record Sends {A : Type 0} (n : ℕ) (method : Method Session A) : Type 0 where
  pub at : (self : Session) → length (method self).1.sent ≤ length self.sent + n

resumed :
    {A B : Type 0} (n k : ℕ) (r : Result A) (after : A → Method Session B) (self : Session)
    (before : ℕ)
    → length self.sent ≤ before + n
    → ((value : A) → Sends k (after value))
    → length (resume r after self).1.sent ≤ before + (n + k)
resumed n k (ok value) after self before h sends = omega (arith, h, (sends value).at self)
resumed n k (err exception) after self before h sends = omega (arith, h)

pub Sends-bind :
    {A B : Type 0} (n k : ℕ) (before : Method Session A) (after : A → Method Session B)
    → Sends n before
    → ((value : A) → Sends k (after value))
    → Sends (n + k) (before >>= after)
Sends-bind n k before after h sends = record {
  at = λ self.
      resumed n k (before self).0 after (before self).1 (length self.sent) (h.at self) sends;
}

pub Sends-cases :
    {A : Type 0} (n : ℕ) (b : Bool) (left right : Method Session A)
    → Sends n left
    → Sends n right
    → Sends n (elim b [ true ↦ left | false ↦ right ])
Sends-cases n true left right hl hr = hl
Sends-cases n false left right hl hr = hr

pub Sends-return : {A : Type 0} (n : ℕ) (value : A) → Sends n (return value)
Sends-return n value = record { at = λ self. omega arith }

pub Sends-outcome : {A : Type 0} (r : Result A) → Sends 0 (outcome r)
Sends-outcome r = record { at = λ self. omega arith }

pub Sends-read : {A : Type 0} (f : Session → A) → Sends 0 (read f)
Sends-read f = record { at = λ self. omega arith }

pub Sends-raise : {A : Type 0} (n : ℕ) (exception : Exception) → Sends {A = A} n (raise exception)
Sends-raise n exception = record { at = λ self. omega arith }

pub Sends-more :
    {A : Type 0} (n k : ℕ) (method : Method Session A) → Sends n method → Sends (n + k) method
Sends-more n k method h = record { at = λ self. omega (arith, h.at self) }

module _ (account : Account) where
  pub send-Sends : (request : Request) → Sends 1 (send account request)
  unfolding send
  send-Sends request = record { at = λ self. omega arith }

  now-Sends : Sends 0 (now account)
  unfolding now
  now-Sends = record { at = λ self. omega arith }

  write_token :
      (token : Option Text) → Sends 0 (write (λ self. record self { access_token = token }))
  write_token token = record { at = λ self. omega arith }

  write_expiry : (at : Option ℕ) → Sends 0 (write (λ self. record self { token_expires_at = at }))
  write_expiry at = record { at = λ self. omega arith }

  expiry-Sends : (expires_in : Option Value) → Sends 0 (expiry account expires_in)
  unfolding expiry
  expiry-Sends none = Sends-return 0 none
  expiry-Sends (some expires_in) =
      Sends-cases 0 (truthy account.python expires_in) _ _
        (Sends-bind 0 0 (now account) _ now-Sends λ time.
          Sends-bind 0 0 (outcome (account.python.int expires_in)) _ (Sends-outcome _)
            λ seconds. Sends-return 0 (some (time + seconds)))
        (Sends-return 0 none)

  take_token-Sends : (response : Response) → Sends 0 (take_token account response)
  unfolding take_token
  take_token-Sends response = Sends-bind 0 0 (outcome response.json) _ (Sends-outcome _) λ payload.
      Sends-bind 0 0 (outcome (item (lit "access_token") payload)) _ (Sends-outcome _) λ token.
        Sends-bind 0 0 _ _ (write_token (token_value account.python token)) λ _.
          Sends-bind 0 0 (outcome (get_value (lit "expires_in") payload)) _ (Sends-outcome _)
            λ expires_in.
              Sends-bind 0 0 (expiry account expires_in) _ (expiry-Sends expires_in)
                λ expires_at. write_expiry expires_at

  refresh_with-Sends : (refresh_token : Option Text) → Sends 1 (refresh_with account refresh_token)
  unfolding refresh_with
  refresh_with-Sends none = Sends-raise 1 _
  refresh_with-Sends (some []) = Sends-raise 1 _
  refresh_with-Sends (some (c ∷ t)) =
      Sends-bind 1 0 (send account (refresh_request account (c ∷ t))) _ (send-Sends _) λ response.
        Sends-cases 0 (response.status_code == 200) _ _ (take_token-Sends response)
          (Sends-raise 0 _)

  pub refresh_access_token-Sends : Sends 1 (refresh_access_token account)
  unfolding refresh_access_token
  refresh_access_token-Sends = refresh_with-Sends account.refresh_token

  token_is_fresh_at-Sends :
      (token : Option Text) (expires_at : Option ℕ)
      → Sends 0 (token_is_fresh_at account token expires_at)
  unfolding token_is_fresh_at
  token_is_fresh_at-Sends token none =
      Sends-cases 0 (no_token token) _ _ (Sends-return 0 false) (Sends-return 0 true)
  token_is_fresh_at-Sends token (some at) =
      Sends-cases 0 (no_token token) _ _ (Sends-return 0 false) (
        Sends-bind 0 0 (now account) _ now-Sends
          λ time. Sends-return 0 (expires_before time (some at)))

  token_is_fresh-Sends : Sends 0 (token_is_fresh account)
  unfolding token_is_fresh
  token_is_fresh-Sends = Sends-bind 0 0 (read (λ self. self.access_token)) _ (Sends-read _) λ token.
      Sends-bind 0 0 (read (λ self. self.token_expires_at)) _ (Sends-read _)
        λ expires_at. token_is_fresh_at-Sends token expires_at

  bearer-Sends : Sends 0 (bearer account)
  unfolding bearer
  bearer-Sends =
      Sends-bind 0 0 (read (λ self. self.access_token)) _ (Sends-read _) λ token. Sends-return 0 _

  headers_when-Sends : (fresh : Bool) → Sends 1 (headers_when account fresh)
  unfolding headers_when
  headers_when-Sends true = Sends-more 0 1 (bearer account) bearer-Sends
  headers_when-Sends false =
      Sends-bind 1 0 (refresh_access_token account) _ refresh_access_token-Sends λ _. bearer-Sends

  pub auth_headers-Sends : Sends 1 (auth_headers account)
  unfolding auth_headers
  auth_headers-Sends =
      Sends-bind 0 1 (token_is_fresh account) _ token_is_fresh-Sends
        λ fresh. headers_when-Sends fresh
