-- ===== src/Settings/Provider.antt =====
-- The storage configuration that a user saves (`upsert_storage_config` of
-- app/api/v1/storage_config.py).
use event_creator.Prelude.{
  ap, ℕ, ◌≡◌, ◌≢◌, ◌⊎◌, refl, sym, Bool, true, false, Bool-cases, inl, inr, Option, none, some,
  List, [], ◌∷◌, ◌++◌, ◌==◌, ==_iff, arith,
}
use event_creator.Python.Exception.{Result, ok}
use event_creator.Database.{StorageProviderType, google_drive, dropbox, s3, StorageConfig, World}
use event_creator.Database.Actions.{find_where, update_where}
use event_creator.UserSettings.{last_commit}
use event_creator.Pipeline.Push.{find_config}
use event_creator.Settings.{
  StorageConfigRead, read_of, read_storage_config, StorageConfigWrite, same_provider, cleared,
  kept_or_cleared, changed, new_config, upsert_found, upsert_storage_config,
}

-- No credential is stored.
pub record IsBare (c : StorageConfig) : Type 0 where
  pub access : c.oauth_access_token ≡ none
  pub refresh : c.oauth_refresh_token ≡ none
  pub expires : c.oauth_token_expires_at ≡ none
  pub key : c.s3_access_key ≡ none
  pub secret : c.s3_secret_key ≡ none
  pub bucket : c.s3_bucket_name ≡ none
  pub region : c.s3_region ≡ none

-- The credentials are none, or those of a row that was stored for the same provider.
abbrev pub IsOwn : StorageConfigWrite → Option StorageConfig → StorageConfig → Type 0
IsOwn payload before c =
    IsBare c
    ⊎ ((old : StorageConfig) × (before ≡ some old)
        × (old.provider ≡ payload.provider)
        × (c ≡ record old { folder_path = payload.folder_path }))

same_provider-eq : (p q : StorageProviderType) → same_provider p q ≡ true → p ≡ q
unfolding same_provider
same_provider-eq google_drive google_drive h = refl
same_provider-eq dropbox dropbox h = refl
same_provider-eq s3 s3 h = refl
same_provider-eq google_drive dropbox h = cc
same_provider-eq google_drive s3 h = cc
same_provider-eq dropbox google_drive h = cc
same_provider-eq dropbox s3 h = cc
same_provider-eq s3 google_drive h = cc
same_provider-eq s3 dropbox h = cc

changed-IsOwn :
    (payload : StorageConfigWrite) (old : StorageConfig)
    → IsOwn payload (some old) (changed payload old)
unfolding changed kept_or_cleared cleared
changed-IsOwn payload old =
    by_same (same_provider old.provider payload.provider)
      (same_provider-eq old.provider payload.provider)
  where
    by_same :
        (b : Bool)
        → (b ≡ true → old.provider ≡ payload.provider)
        → IsOwn payload (some old) (record (kept_or_cleared b old) {
          provider = payload.provider;
          folder_path = payload.folder_path;
        })
    by_same true h = inr (
      old,
      refl,
      h refl,
      λ i. record old { provider = sym (h refl) i; folder_path = payload.folder_path },
    )
    by_same false h = inl (record {
      access = refl;
      refresh = refl;
      expires = refl;
      key = refl;
      secret = refl;
      bucket = refl;
      region = refl;
    })

module _ (user_id : ℕ) (payload : StorageConfigWrite) where
  changed_user : (c : StorageConfig) → (changed payload c).user_id ≡ c.user_id
  unfolding changed kept_or_cleared cleared
  changed_user c = by_same (same_provider c.provider payload.provider)
    where
      by_same : (b : Bool) → (kept_or_cleared b c).user_id ≡ c.user_id
      by_same true = refl
      by_same false = refl

  find-changed :
      (configs : List StorageConfig) {old : StorageConfig}
      → find_where (λ c. c.user_id == user_id) configs ≡ some old
      → find_where
          (λ c. c.user_id == user_id)
          (update_where (λ c. c.user_id == user_id) (changed payload) configs)
        ≡ some (changed payload old)
  find-changed [] h = cc
  find-changed (c ∷ configs) {old = old} h = elim (Bool-cases (c.user_id == user_id)) [
    | inl e ↦ ground (arith, changed_user c)
    | inr e ↦ ground (arith, find-changed configs {old = old})
  ]

  find-other :
      (k : ℕ) (configs : List StorageConfig)
      → k ≢ user_id
      → find_where
          (λ c. c.user_id == k)
          (update_where (λ c. c.user_id == user_id) (changed payload) configs)
        ≡ find_where (λ c. c.user_id == k) configs
  find-other k [] h = refl
  find-other k (c ∷ configs) h = elim (Bool-cases (c.user_id == user_id)) [
    | inl e ↦ ground (arith, changed_user c, find-other k configs h)
    | inr e ↦ ground (arith, find-other k configs h)
  ]

  find-last :
      (configs : List StorageConfig)
      → find_where (λ c. c.user_id == user_id) configs ≡ none
      → find_where (λ c. c.user_id == user_id) (configs ++ new_config user_id payload ∷ [])
        ≡ some (new_config user_id payload)
  unfolding new_config
  find-last [] h = ground (arith, (==_iff user_id user_id).1 refl)
  find-last (c ∷ configs) h = ground (arith, find-last configs)

  find-other_last :
      (k : ℕ) (configs : List StorageConfig)
      → k ≢ user_id
      → find_where (λ c. c.user_id == k) (configs ++ new_config user_id payload ∷ [])
        ≡ find_where (λ c. c.user_id == k) configs
  unfolding new_config
  find-other_last k [] h = ground arith
  find-other_last k (c ∷ configs) h = ground (arith, find-other_last k configs h)

  -- The stored row after a user saves a configuration.
  pub record IsSaved (w : World) (saved : Result StorageConfigRead × World) : Type 0 where
    pub config : StorageConfig
    pub found : find_config user_id saved.1 ≡ some config
    pub provider : config.provider ≡ payload.provider
    pub folder : config.folder_path ≡ payload.folder_path
    pub own : IsOwn payload (find_config user_id w) config
    pub others : (k : ℕ) → k ≢ user_id → find_config k saved.1 ≡ find_config k w
    pub seen : last_commit saved.1 ≡ saved.1.db
    pub reread : (read_storage_config user_id saved.1).0 ≡ saved.0

  saved_from :
      (w : World) (before : Option StorageConfig)
      → find_config user_id w ≡ before
      → IsSaved w (upsert_found user_id payload before w)
  unfolding read_storage_config upsert_found find_config last_commit new_config changed
      kept_or_cleared cleared
  saved_from w none e = record {
    config = new_config user_id payload;
    found = find-last w.db.configs e;
    provider = refl;
    folder = refl;
    own = inl (record {
      access = refl;
      refresh = refl;
      expires = refl;
      key = refl;
      secret = refl;
      bucket = refl;
      region = refl;
    });
    others = λ k h. find-other_last k w.db.configs h;
    seen = refl;
    reread = ap (λ c. ok (read_of c)) (find-last w.db.configs e);
  }
  saved_from w (some old) e = record {
    config = changed payload old;
    found = find-changed w.db.configs e;
    provider = refl;
    folder = refl;
    own = rw e (changed-IsOwn payload old);
    others = λ k h. find-other k w.db.configs h;
    seen = refl;
    reread = ap (λ c. ok (read_of c)) (find-changed w.db.configs e);
  }

-- After a user saves a configuration, the user's stored and committed row has the provider and the
-- folder that were saved, and its credentials are none, or those that were stored for the same provider:
-- no credential is kept for another provider. The rows of all other users are as they were, and the
-- answer is what reading the configuration then gives.
pub upsert_storage_config-IsSaved :
    (user_id : ℕ) (payload : StorageConfigWrite) (w : World)
    → IsSaved user_id payload w (upsert_storage_config user_id payload w)
unfolding upsert_storage_config
upsert_storage_config-IsSaved user_id payload w =
    saved_from user_id payload w (find_config user_id w) refl
