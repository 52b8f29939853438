-- ===== src/Settings/Tests.antt =====
-- Settings at concrete inputs.
use event_creator.Prelude.{◌≡◌, refl, true, false, none, some, [], ◌∷◌}
use event_creator.Python.Text.{lit, strip, is_space, lstrip_while}
use event_creator.Python.Exception.{ok, err, value_error}
use event_creator.Database.{google_drive, dropbox, LlmPrompt, World}
use event_creator.UserSettings.{
  last_commit, get_user_settings, insert_settings, found_or_created, get_or_create_user_settings,
  set_settings, mark_storage_onboarding_done,
}
use event_creator.Pipeline.Push.{find_config}
use event_creator.Pipeline.Samples.{queued, tables}
use event_creator.Upload.{config_is_connected}
use event_creator.Settings.{
  StorageConfigWrite, require_non_blank, strip_and_require_non_blank, read_of, read_storage_config,
  same_provider, cleared, kept_or_cleared, changed, new_config, upsert_found, upsert_storage_config,
  find_prompt, get_user_prompt, insert_prompt, rolled_back, create_prompt, prompt_found,
  get_or_create_user_prompt, set_created, set_found, set_user_prompt, read_prompt, reset_prompt,
}
use event_creator.Settings.Prompt.{set_user_prompt-HasText}
use event_creator.Settings.Provider.{IsSaved, upsert_storage_config-IsSaved}

abbrev payload : StorageConfigWrite
payload = record { provider = dropbox; folder_path = lit "/chats" }

-- Connected to Drive.
abbrev saved : World
saved = record queued {
  db = record tables {
    configs =
        record {
          user_id = 2;
          provider = google_drive;
          folder_path = lit "/old";
          oauth_access_token = some (lit "x");
          oauth_refresh_token = none;
          oauth_token_expires_at = none;
          s3_access_key = none;
          s3_secret_key = none;
          s3_bucket_name = none;
          s3_region = none;
        }
        ∷ [];
  };
}

upsert_storage_config-IsSaved_example :
    IsSaved 2 payload saved (upsert_storage_config 2 payload saved)
upsert_storage_config-IsSaved_example = upsert_storage_config-IsSaved 2 payload saved

switch_test :
    (upsert_storage_config 2 payload saved).0
    ≡ ok (record {
      provider = some dropbox;
      folder_path = some (lit "/chats");
      is_connected = false;
    })
unfolding upsert_storage_config upsert_found changed kept_or_cleared same_provider cleared read_of
    config_is_connected find_config
switch_test = refl

create_test :
    (upsert_storage_config 2 payload queued).0
    ≡ ok (record {
      provider = some dropbox;
      folder_path = some (lit "/chats");
      is_connected = false;
    })
unfolding upsert_storage_config upsert_found new_config read_of config_is_connected find_config
create_test = refl

read_test :
    (read_storage_config 2 saved).0
    ≡ ok (record {
      provider = some google_drive;
      folder_path = some (lit "/old");
      is_connected = true;
    })
unfolding read_storage_config read_of config_is_connected find_config
read_test = refl

blank_test :
    strip_and_require_non_blank (lit " ") ≡ err (value_error (lit "folder_path must not be blank"))
unfolding strip_and_require_non_blank require_non_blank strip lstrip_while is_space lit
blank_test = refl

set_user_prompt-HasText_example :
    ((set_user_prompt none 2 (lit "p") queued).0 ≡ ok (lit "p"))
    × ((p : LlmPrompt) × (find_prompt 2 (set_user_prompt none 2 (lit "p") queued).1 ≡ some p)
        × (p.prompt_text ≡ lit "p"))
    × (last_commit (set_user_prompt none 2 (lit "p") queued).1
        ≡ (set_user_prompt none 2 (lit "p") queued).1.db)
set_user_prompt-HasText_example =
    set_user_prompt-HasText none 2 (lit "p") queued (λ p h. absurd (cc))

reset_test : (reset_prompt none 2 (lit "d") queued).0 ≡ ok (lit "d")
unfolding reset_prompt set_user_prompt get_user_prompt set_found set_created insert_prompt
reset_test = refl

-- Another request creates the prompt first.
raced_test :
    (read_prompt (some (record { user_id = 2; prompt_text = lit "t" })) 2 (lit "d") queued).0
    ≡ ok (lit "t")
unfolding read_prompt get_or_create_user_prompt get_user_prompt prompt_found create_prompt
    rolled_back find_prompt
raced_test = refl

onboarding_test : (mark_storage_onboarding_done none 2 queued).0 ≡ ok tt
unfolding mark_storage_onboarding_done get_or_create_user_settings get_user_settings
    found_or_created insert_settings set_settings
onboarding_test = refl
