-- ===== src/Storage/Factory.antt =====
-- app/services/storage/factory.py and `_storage_mode` of app/api/v1/upload.py: which provider a user's
-- configuration gives. `CredentialCipher.decrypt` may raise.
pub mod Choice
pub mod Tests
use event_creator.Prelude.{
  ℕ, Bool, true, false, ◌&&◌, ◌||◌, not, Option, none, some, [], ◌∷◌, if◌then◌else◌,
}
use event_creator.Python.Text.{Text, lit}
use event_creator.Database.{StorageProviderType, google_drive, dropbox, s3, StorageConfig}
use event_creator.Python.Exception.{Exception, Result, ok, err, value_error, ◌>>=◌}

-- The settings that choose a provider, and the OAuth clients' identifiers.
pub record Settings : Type 0 where
  pub e2e_test_mode : Bool
  pub mock_integrations : Bool
  pub google_oauth_client_id : Text
  pub google_oauth_client_secret : Text
  pub dropbox_oauth_client_id : Text
  pub dropbox_oauth_client_secret : Text

-- What a provider over OAuth is constructed with.
pub record Connection : Type 0 where
  pub folder_path : Text
  pub access_token : Option Text
  pub refresh_token : Option Text
  pub token_expires_at : Option ℕ
  pub client_id : Text
  pub client_secret : Text

pub record Bucket : Type 0 where
  pub access_key : Text
  pub secret_key : Text
  pub bucket_name : Text
  pub region : Text
  pub folder_path : Text

-- The five classes of providers.
pub data Provider : Type 0 where
  fake ephemeral : Provider
  drive_provider dropbox_provider : Connection → Provider
  s3_provider : Bucket → Provider

abbrev pub Cipher : Type 0
Cipher = Text → Result Text

-- `cipher.decrypt(x) if x else None`
decrypted : Cipher → Option Text → Result (Option Text)
decrypted decrypt none = ok none
decrypted decrypt (some []) = ok none
decrypted decrypt (some (c ∷ t)) = do plain ← decrypt (c ∷ t); ok (some plain)

-- `not value`, else the value.
required : Option Text → Result Text
required none = err (value_error (lit "S3 storage config is missing required credentials"))
required (some []) = err (value_error (lit "S3 storage config is missing required credentials"))
required (some (c ∷ t)) = ok (c ∷ t)

pub build_google_drive_provider : StorageConfig → Settings → Cipher → Result Provider
unfolding decrypted
build_google_drive_provider config settings decrypt = do
  access_token ← decrypted decrypt config.oauth_access_token
  refresh_token ← decrypted decrypt config.oauth_refresh_token
  ok (
      drive_provider (record {
        folder_path = config.folder_path;
        access_token = access_token;
        refresh_token = refresh_token;
        token_expires_at = config.oauth_token_expires_at;
        client_id = settings.google_oauth_client_id;
        client_secret = settings.google_oauth_client_secret;
      }))

pub build_dropbox_provider : StorageConfig → Settings → Cipher → Result Provider
unfolding decrypted
build_dropbox_provider config settings decrypt = do
  access_token ← decrypted decrypt config.oauth_access_token
  refresh_token ← decrypted decrypt config.oauth_refresh_token
  ok (
      dropbox_provider (record {
        folder_path = config.folder_path;
        access_token = access_token;
        refresh_token = refresh_token;
        token_expires_at = config.oauth_token_expires_at;
        client_id = settings.dropbox_oauth_client_id;
        client_secret = settings.dropbox_oauth_client_secret;
      }))

-- All four are decrypted before any is required.
pub build_s3_provider : StorageConfig → Cipher → Result Provider
unfolding decrypted required
build_s3_provider config decrypt = do
  access_key ← decrypted decrypt config.s3_access_key
  secret_key ← decrypted decrypt config.s3_secret_key
  bucket_name ← decrypted decrypt config.s3_bucket_name
  region ← decrypted decrypt config.s3_region
  key ← required access_key
  secret ← required secret_key
  bucket ← required bucket_name
  place ← required region
  ok (
      s3_provider (record {
        access_key = key;
        secret_key = secret;
        bucket_name = bucket;
        region = place;
        folder_path = config.folder_path;
      }))

unfoldable pub by_provider :
    StorageProviderType → StorageConfig → Settings → Cipher → Result Provider
by_provider google_drive config settings decrypt =
    build_google_drive_provider config settings decrypt
by_provider dropbox config settings decrypt = build_dropbox_provider config settings decrypt
by_provider s3 config settings decrypt = build_s3_provider config decrypt

unfoldable pub without_config : Bool → Result Provider
without_config true = ok ephemeral
without_config false =
    err (value_error (lit "a storage config and cipher are required outside E2E_TEST_MODE"))

unfoldable pub configured : Option StorageConfig → Settings → Option Cipher → Bool → Result Provider
unfolding without_config
configured none settings cipher fallback = without_config fallback
configured (some config) settings none fallback = without_config fallback
configured (some config) settings (some decrypt) fallback =
    by_provider config.provider config settings decrypt

unfoldable pub build_storage_provider :
    Option StorageConfig → Settings → Option Cipher → Bool → Result Provider
build_storage_provider config settings cipher fallback_to_ephemeral =
    elim (settings.e2e_test_mode || settings.mock_integrations) [
      | true ↦ ok fake
      | false ↦ configured config settings cipher fallback_to_ephemeral
    ]

pub data StorageMode : Type 0 where
  fake_mode ephemeral_mode configured_mode : StorageMode

-- `_storage_mode`
unfoldable pub storage_mode : Provider → StorageMode
storage_mode fake = fake_mode
storage_mode ephemeral = ephemeral_mode
storage_mode _ = configured_mode
