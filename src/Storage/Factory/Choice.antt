-- ===== src/Storage/Factory/Choice.antt =====
-- The provider that app/services/storage/factory.py builds for a configuration.
use event_creator.Prelude.{◌≡◌, refl, Bool, false, ◌||◌, some, Empty}
use event_creator.Python.Exception.{Result, ok, err, ◌>>=◌}
use event_creator.Database.{StorageProviderType, google_drive, dropbox, s3, StorageConfig}
use event_creator.Storage.Factory.{
  Settings, Cipher, Provider, fake, ephemeral, drive_provider, dropbox_provider, s3_provider,
  decrypted, required, build_google_drive_provider, build_dropbox_provider, build_s3_provider,
  by_provider, configured, build_storage_provider, configured_mode, storage_mode,
}

-- The provider is of the class that the configuration names, over its folder, and with its expiry.
abbrev pub IsFor : StorageConfig → Provider → Type 0
IsFor config (drive_provider c) =
    (config.provider ≡ google_drive)
    × (c.folder_path ≡ config.folder_path)
    × (c.token_expires_at ≡ config.oauth_token_expires_at)
IsFor config (dropbox_provider c) =
    (config.provider ≡ dropbox)
    × (c.folder_path ≡ config.folder_path)
    × (c.token_expires_at ≡ config.oauth_token_expires_at)
IsFor config (s3_provider b) = (config.provider ≡ s3) × (b.folder_path ≡ config.folder_path)
IsFor config _ = Empty

abbrev IsBuilt : StorageConfig → Result Provider → Type 0
IsBuilt config (ok p) = IsFor config p
IsBuilt config (err e) = Unit

IsBuilt-bind :
    {A : Type 0} (config : StorageConfig) (m : Result A) (f : A → Result Provider)
    → ((a : A) → IsBuilt config (f a))
    → IsBuilt config (m >>= f)
IsBuilt-bind config (ok a) f h = h a
IsBuilt-bind config (err e) f h = tt

module _ (config : StorageConfig) (settings : Settings) (decrypt : Cipher) where
  drive-IsBuilt :
      config.provider ≡ google_drive
      → IsBuilt config (build_google_drive_provider config settings decrypt)
  unfolding build_google_drive_provider
  drive-IsBuilt e =
      IsBuilt-bind config (decrypted decrypt config.oauth_access_token) _ λ access_token.
        IsBuilt-bind config (decrypted decrypt config.oauth_refresh_token) _
          λ refresh_token. (e, refl, refl)

  dropbox-IsBuilt :
      config.provider ≡ dropbox → IsBuilt config (build_dropbox_provider config settings decrypt)
  unfolding build_dropbox_provider
  dropbox-IsBuilt e =
      IsBuilt-bind config (decrypted decrypt config.oauth_access_token) _ λ access_token.
        IsBuilt-bind config (decrypted decrypt config.oauth_refresh_token) _
          λ refresh_token. (e, refl, refl)

  s3-IsBuilt : config.provider ≡ s3 → IsBuilt config (build_s3_provider config decrypt)
  unfolding build_s3_provider
  s3-IsBuilt e = IsBuilt-bind config (decrypted decrypt config.s3_access_key) _ λ access_key.
      IsBuilt-bind config (decrypted decrypt config.s3_secret_key) _ λ secret_key.
        IsBuilt-bind config (decrypted decrypt config.s3_bucket_name) _ λ bucket_name.
          IsBuilt-bind config (decrypted decrypt config.s3_region) _ λ region.
            IsBuilt-bind config (required access_key) _ λ key.
              IsBuilt-bind config (required secret_key) _ λ secret.
                IsBuilt-bind config (required bucket_name) _
                  λ bucket. IsBuilt-bind config (required region) _ λ place. (e, refl)

  by_provider-IsBuilt :
      (provider : StorageProviderType)
      → config.provider ≡ provider
      → IsBuilt config (by_provider provider config settings decrypt)
  unfolding by_provider
  by_provider-IsBuilt google_drive e = drive-IsBuilt e
  by_provider-IsBuilt dropbox e = dropbox-IsBuilt e
  by_provider-IsBuilt s3 e = s3-IsBuilt e

  -- Outside the test modes a saved configuration gives, if it gives a provider, one of the class that
  -- it names, over its own folder and with its expiry, never the ephemeral one, with or without the
  -- fallback; a push task for it has to reconstruct it from the configuration.
  pub build_storage_provider-IsFor :
      (fallback : Bool) {p : Provider}
      → (settings.e2e_test_mode || settings.mock_integrations) ≡ false
      → build_storage_provider (some config) settings (some decrypt) fallback ≡ ok p
      → IsFor config p × (storage_mode p ≡ configured_mode)
  unfolding build_storage_provider configured storage_mode
  build_storage_provider-IsFor fallback {p = p} live built =
      let same : by_provider config.provider config settings decrypt ≡ ok p =
        rw (build_storage_provider, live) at built in
      let good : IsFor config p = rw same at (by_provider-IsBuilt config.provider refl) in
      (good, mode p good)
    where
      mode : (q : Provider) → IsFor config q → storage_mode q ≡ configured_mode
      mode fake h = elim h [ ]
      mode ephemeral h = elim h [ ]
      mode (drive_provider c) h = refl
      mode (dropbox_provider c) h = refl
      mode (s3_provider b) h = refl
