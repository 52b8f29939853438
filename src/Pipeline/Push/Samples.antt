-- ===== src/Pipeline/Push/Samples.antt =====
-- A deployment in the test mode, for the tests.
use event_creator.Prelude.{true, false, []}
use event_creator.Python.Text.{lit}
use event_creator.Python.Exception.{ok, err, value_error}
use event_creator.Pipeline.Samples.{helpers}
use event_creator.Pipeline.Push.{Deployment}

abbrev pub deployment : Deployment
deployment = record {
  collaborators = helpers;
  settings = record {
    e2e_test_mode = true;
    mock_integrations = false;
    google_oauth_client_id = [];
    google_oauth_client_secret = [];
    dropbox_oauth_client_id = [];
    dropbox_oauth_client_secret = [];
  };
  get_credential_cipher = err (value_error []);
  connect = λ p. record { download_file = λ f. ok []; move_file = λ f d. ok tt };
  b64decode = λ t. ok t;
  b64encode = λ t. t;
  uuid_text = λ n. lit "f";
  create_task = λ payload. ok tt;
}
