-- ===== src/UserSettings.antt =====
-- app/services/user_settings.py: the settings row of a user, created when it is first needed, and the
-- onboarding flags. Another request may create the row in between.
use event_creator.Prelude.{ℕ, true, Option, none, some, [], ◌∷◌, ◌++◌, ◌==◌}
use event_creator.Python.Exception.{ok}
use event_creator.Database.{UserSettings, Db, World}
use event_creator.Database.Actions.{
  M, ◌>>=◌, ◌>>◌, pure, gets, update_db, commit, find_where, update_where,
}
use event_creator.Pipeline.Notify.{default_settings}

unfoldable pub get_user_settings : ℕ → M (Option UserSettings)
get_user_settings user_id = gets (λ w. find_where (λ s. s.user_id == user_id) w.db.settings)

-- The tables as the last commit left them.
unfoldable pub last_commit : World → Db
last_commit w = elim w.committed [ [] ↦ w.db | db ∷ _ ↦ db ]

unfoldable pub refused : UserSettings → M UserSettings
unfolding last_commit
refused theirs w =
    let before : Db = last_commit w in
    (ok theirs, record w { db = record before { settings = before.settings ++ theirs ∷ [] } })

-- `commit()` of the new row. Where another request has committed a row for the user since the lookup,
-- the unique key refuses ours, and `rollback()` undoes whatever the session has not committed.
unfoldable pub insert_settings : Option UserSettings → UserSettings → M UserSettings
unfolding refused
insert_settings none settings = do
  update_db (λ db. record db { settings = db.settings ++ settings ∷ [] })
  commit
  pure settings
insert_settings (some theirs) settings = refused theirs

unfoldable pub found_or_created : Option UserSettings → ℕ → Option UserSettings → M UserSettings
unfolding insert_settings
found_or_created theirs user_id (some settings) = pure settings
found_or_created theirs user_id none = insert_settings theirs (default_settings user_id)

-- `theirs` is the row that another request commits between the lookup and the commit here, if one does.
unfoldable pub get_or_create_user_settings : Option UserSettings → ℕ → M UserSettings
unfolding found_or_created get_user_settings
get_or_create_user_settings theirs user_id = do
  found ← get_user_settings user_id
  found_or_created theirs user_id found

-- An attribute of the user's row is set.
unfoldable pub set_settings : ℕ → (UserSettings → UserSettings) → M (Unit {0})
set_settings user_id f =
    update_db λ db. record db { settings = update_where (λ s. s.user_id == user_id) f db.settings }

unfoldable pub mark_storage_onboarding_done : Option UserSettings → ℕ → M (Unit {0})
unfolding set_settings
mark_storage_onboarding_done theirs user_id = do
  get_or_create_user_settings theirs user_id
  set_settings user_id (λ s. record s { onboarding_storage_done = true })
  commit

unfoldable pub mark_first_upload_onboarding_done : Option UserSettings → ℕ → M (Unit {0})
unfolding set_settings
mark_first_upload_onboarding_done theirs user_id = do
  get_or_create_user_settings theirs user_id
  set_settings user_id (λ s. record s { onboarding_first_upload_done = true })
  commit
