-- ===== src/Storage/Http.antt =====
-- The HTTP client that a provider is given (`httpx.AsyncClient`): requests as values, and a service
-- that answers each from the requests that it has had.
use event_creator.Prelude.{ℕ, Option, none, some, List, [], ◌∷◌, if◌then◌else◌}
use event_creator.Python.Text.{Text, text_eq}
use event_creator.Python.Exception.{Result}
use event_creator.Python.Json.{Value}

abbrev pub Pairs : Type 0
Pairs = List (Text × Text)

pub data Body : Type 0 where
  no_body : Body
  form : Pairs → Body
  json : Value → Body
  content : List ℕ → Body

pub record Request : Type 0 where
  pub method : Text
  pub url : Text
  pub params : Pairs
  pub headers : Pairs
  pub body : Body

-- `response.json()` raises where the body is no JSON.
pub record Response : Type 0 where
  pub status_code : ℕ
  pub text : Text
  pub content : List ℕ
  pub json : Result Value

-- The service: what it answers depends on the requests so far, newest first; the network may fail.
abbrev pub Service : Type 0
Service = List Request → Request → Result Response

-- The value of a header: `{**a, **b}` has the entries of `b` first.
unfoldable pub lookup : Text → Pairs → Option Text
lookup name [] = none
lookup name (p ∷ pairs) =
    let rest = lookup name pairs in if text_eq p.0 name then some p.1 else rest
