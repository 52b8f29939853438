-- ===== src/Storage/Samples.antt =====
-- A connected account and a service that answers from a script, for the tests of the providers.
use event_creator.Prelude.{ℕ, zero, suc, ◌+◌, false, none, some, List, [], ◌∷◌, length}
use event_creator.Python.Text.{Text, lit}
use event_creator.Python.Exception.{Result, ok, err, other}
use event_creator.Python.Json.{Value, string, object, field, end, Builtins}
use event_creator.Storage.Http.{Response}
use event_creator.Storage.Token.{Account, Session}

abbrev pub python : Builtins
python = record { repr = λ v. lit "value"; int = λ v. ok 3600; is_zero = λ t. false }

abbrev pub nth : ℕ → List Response → Result Response
nth n [] = err (other (lit "ConnectError"))
nth zero (r ∷ rs) = ok r
nth (suc n) (r ∷ rs) = nth n rs

abbrev pub answer : ℕ → Value → Response
answer code value = record { status_code = code; text = []; content = lit "PK"; json = ok value }

-- The n-th request gets the n-th answer.
abbrev pub scripted : List Response → Account
scripted answers = record {
  python = python;
  service = λ sent request. nth (length sent) answers;
  clock = λ n. 1000 + n;
  folder_path = lit "/chats/inbox/";
  refresh_token = some (lit "refresh");
  client_id = lit "client";
  client_secret = lit "secret";
  token_url = lit "https://token.example";
  service_name = lit "Drive";
}

-- A token that does not expire.
abbrev pub connected : Session
connected = record {
  access_token = some (lit "old");
  token_expires_at = none;
  watch_folder_id = none;
  processed_folder = none;
  failed_folder = none;
  reads = 0;
  sent = [];
}

abbrev pub named : Text → Text → Value
named id name = object (field (lit "id") (string id) (field (lit "name") (string name) end))

abbrev pub token_answer : Response
token_answer = answer 200 (object (field (lit "access_token") (string (lit "new")) end))
