-- ===== src/Storage/Factory/Tests.antt =====
-- The choice of a provider at concrete inputs.
use event_creator.Prelude.{◌≡◌, refl, false, some, none}
use event_creator.Python.Text.{lit}
use event_creator.Python.Exception.{ok}
use event_creator.Database.{dropbox, StorageConfig}
use event_creator.Storage.Factory.{
  Settings, Provider, dropbox_provider, decrypted, build_dropbox_provider, by_provider, configured,
  build_storage_provider, configured_mode, storage_mode,
}
use event_creator.Storage.Factory.Choice.{IsFor, build_storage_provider-IsFor}

abbrev live : Settings
live = record {
  e2e_test_mode = false;
  mock_integrations = false;
  google_oauth_client_id = lit "g";
  google_oauth_client_secret = lit "gs";
  dropbox_oauth_client_id = lit "d";
  dropbox_oauth_client_secret = lit "ds";
}

abbrev saved : StorageConfig
saved = record {
  user_id = 2;
  provider = dropbox;
  folder_path = lit "/chats";
  oauth_access_token = some (lit "x");
  oauth_refresh_token = none;
  oauth_token_expires_at = some 9;
  s3_access_key = none;
  s3_secret_key = none;
  s3_bucket_name = none;
  s3_region = none;
}

abbrev built : Provider
built = dropbox_provider (record {
  folder_path = lit "/chats";
  access_token = some (lit "x");
  refresh_token = none;
  token_expires_at = some 9;
  client_id = lit "d";
  client_secret = lit "ds";
})

build_storage_provider-IsFor_example : IsFor saved built × (storage_mode built ≡ configured_mode)
unfolding build_storage_provider configured by_provider build_dropbox_provider decrypted lit
build_storage_provider-IsFor_example =
    build_storage_provider-IsFor saved live (λ t. ok t) false refl refl
