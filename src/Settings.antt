-- ===== src/Settings.antt =====
-- app/api/v1/storage_config.py and app/api/v1/llm_prompt.py: the one storage configuration and the one
-- prompt of a user.
pub mod Prompt
pub mod Provider
pub mod Tests
use event_creator.Prelude.{ℕ, Bool, true, false, Option, none, some, List, [], ◌∷◌, ◌++◌, ◌==◌}
use event_creator.Python.Text.{Text, strip}
use event_creator.Python.Exception.{Result, ok, err, value_error}
use event_creator.Python.Text.{lit}
use event_creator.Database.{
  StorageProviderType, google_drive, dropbox, s3, StorageConfig, LlmPrompt, Db, World,
}
use event_creator.Database.Actions.{
  M, ◌>>=◌, ◌>>◌, continue, pure, gets, update_db, commit, find_where, update_where,
}
use event_creator.UserSettings.{last_commit}
use event_creator.Pipeline.Push.{find_config}
use event_creator.Upload.{config_is_connected}

-- `StorageConfigRead`
pub record StorageConfigRead : Type 0 where
  pub provider : Option StorageProviderType
  pub folder_path : Option Text
  pub is_connected : Bool

-- `StorageConfigWrite`, as it is validated.
pub record StorageConfigWrite : Type 0 where
  pub provider : StorageProviderType
  pub folder_path : Text

require_non_blank : Text → Result Text
require_non_blank [] = err (value_error (lit "folder_path must not be blank"))
require_non_blank (c ∷ t) = ok (c ∷ t)

-- `_strip_and_require_non_blank`
pub strip_and_require_non_blank : Text → Result Text
unfolding require_non_blank
strip_and_require_non_blank value = require_non_blank (strip value)

read_of : Option StorageConfig → StorageConfigRead
unfolding config_is_connected
read_of none = record { provider = none; folder_path = none; is_connected = false }
read_of (some config) = record {
  provider = some config.provider;
  folder_path = some config.folder_path;
  is_connected = config_is_connected (some config);
}

pub read_storage_config : ℕ → M StorageConfigRead
unfolding read_of
read_storage_config user_id = gets λ w. read_of (find_config user_id w)

same_provider : StorageProviderType → StorageProviderType → Bool
same_provider google_drive google_drive = true
same_provider dropbox dropbox = true
same_provider s3 s3 = true
same_provider _ _ = false

-- Credentials of another provider mean nothing for the new one.
cleared : StorageConfig → StorageConfig
cleared config = record config {
  oauth_access_token = none;
  oauth_refresh_token = none;
  oauth_token_expires_at = none;
  s3_access_key = none;
  s3_secret_key = none;
  s3_bucket_name = none;
  s3_region = none;
}

kept_or_cleared : Bool → StorageConfig → StorageConfig
unfolding cleared
kept_or_cleared true config = config
kept_or_cleared false config = cleared config

pub changed : StorageConfigWrite → StorageConfig → StorageConfig
unfolding same_provider kept_or_cleared
changed payload config =
    record (kept_or_cleared (same_provider config.provider payload.provider) config) {
      provider = payload.provider;
      folder_path = payload.folder_path;
    }

new_config : ℕ → StorageConfigWrite → StorageConfig
new_config user_id payload = record {
  user_id = user_id;
  provider = payload.provider;
  folder_path = payload.folder_path;
  oauth_access_token = none;
  oauth_refresh_token = none;
  oauth_token_expires_at = none;
  s3_access_key = none;
  s3_secret_key = none;
  s3_bucket_name = none;
  s3_region = none;
}

upsert_found : ℕ → StorageConfigWrite → Option StorageConfig → M StorageConfigRead
unfolding changed new_config read_of
upsert_found user_id payload none = do
  update_db (λ db. record db { configs = db.configs ++ new_config user_id payload ∷ [] })
  commit
  pure (read_of (some (new_config user_id payload)))
upsert_found user_id payload (some config) = do
  update_db (λ db. record db {
    configs = update_where (λ c. c.user_id == user_id) (changed payload) db.configs;
  })
  commit
  pure (read_of (some (changed payload config)))

pub upsert_storage_config : ℕ → StorageConfigWrite → M StorageConfigRead
unfolding upsert_found
upsert_storage_config user_id payload = gets (find_config user_id) >>= upsert_found user_id payload

unfoldable pub find_prompt : ℕ → World → Option LlmPrompt
find_prompt user_id w = find_where (λ p. p.user_id == user_id) w.db.prompts

pub get_user_prompt : ℕ → M (Option LlmPrompt)
unfolding find_prompt
get_user_prompt user_id = gets (find_prompt user_id)

-- `commit()` of a new row, or `rollback()` to the last commit where another request has committed a row
-- since the lookup.
insert_prompt : LlmPrompt → M (Unit {0})
insert_prompt prompt = do
  update_db (λ db. record db { prompts = db.prompts ++ prompt ∷ [] })
  commit

rolled_back : LlmPrompt → M (Unit {0})
unfolding last_commit
rolled_back theirs w =
    let before : Db = last_commit w in
    (ok tt, record w { db = record before { prompts = before.prompts ++ theirs ∷ [] } })

-- The row with the new text.
set_text : ℕ → Text → LlmPrompt → M LlmPrompt
set_text user_id prompt_text prompt = do
  update_db (λ db. record db {
    prompts =
        update_where (λ p. p.user_id == user_id) (λ p. record p { prompt_text = prompt_text })
          db.prompts;
  })
  commit
  pure (record prompt { prompt_text = prompt_text })

create_prompt : Option LlmPrompt → LlmPrompt → M LlmPrompt
unfolding insert_prompt rolled_back
create_prompt none prompt = insert_prompt prompt >> pure prompt
create_prompt (some theirs) prompt = rolled_back theirs >> pure theirs

prompt_found : Option LlmPrompt → ℕ → Text → Option LlmPrompt → M LlmPrompt
unfolding create_prompt
prompt_found theirs user_id default (some prompt) = pure prompt
prompt_found theirs user_id default none =
    create_prompt theirs (record { user_id = user_id; prompt_text = default })

-- `theirs` is the row that another request commits after the lookup, if one does.
pub get_or_create_user_prompt : Option LlmPrompt → ℕ → Text → M LlmPrompt
unfolding prompt_found get_user_prompt
get_or_create_user_prompt theirs user_id factory_default_prompt = do
  prompt ← get_user_prompt user_id
  prompt_found theirs user_id factory_default_prompt prompt

set_created : Option LlmPrompt → ℕ → Text → M LlmPrompt
unfolding insert_prompt rolled_back set_text
set_created none user_id prompt_text =
    let prompt : LlmPrompt = record { user_id = user_id; prompt_text = prompt_text } in
    insert_prompt prompt >> pure prompt
set_created (some theirs) user_id prompt_text = do
  rolled_back theirs
  set_text user_id prompt_text theirs

set_found : Option LlmPrompt → ℕ → Text → Option LlmPrompt → M LlmPrompt
unfolding set_created set_text
set_found theirs user_id prompt_text none = set_created theirs user_id prompt_text
set_found theirs user_id prompt_text (some prompt) = set_text user_id prompt_text prompt

-- With the answer of the endpoints, the text of the row that is returned.
pub set_user_prompt : Option LlmPrompt → ℕ → Text → M Text
unfolding set_found get_user_prompt
set_user_prompt theirs user_id prompt_text = do
  prompt ← get_user_prompt user_id
  saved ← set_found theirs user_id prompt_text prompt
  pure saved.prompt_text

pub read_prompt : Option LlmPrompt → ℕ → Text → M Text
read_prompt theirs user_id factory_default_prompt = do
  prompt ← get_or_create_user_prompt theirs user_id factory_default_prompt
  pure prompt.prompt_text

pub reset_prompt : Option LlmPrompt → ℕ → Text → M Text
reset_prompt theirs user_id factory_default_prompt =
    set_user_prompt theirs user_id factory_default_prompt
