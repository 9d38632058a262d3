-- ===== src/Api/Calls/Authorized.antt =====
-- The token of a session in the requests after a sign-in.
use mathlib.Core.Path.{subst}
use task_calendar.Base.{
  ℕ, true, false, Option, some, some_inj, List, [], ◌∷◌, ◌++◌, All, ◌≡◌, ◌≢◌, refl, sym, arith, ◌∙◌,
  ap,
}
use task_calendar.Base.Json.{Json}
use task_calendar.Base.Maps.{entry}
use task_calendar.Base.Maps.Laws.{entry-set_entry}
use task_calendar.Base.Text.{Text, codes, text_eq, text_eq_iff}
use task_calendar.Api.{Outcome}
use task_calendar.Api.Calls.{
  Call, sent_headers, get_auth_headers, get_stored_auth_token, store_auth_token,
}
use task_calendar.Api.Calls.Accounts.{
  UpdateTimezoneInput, ChangePasswordInput, DeleteAccountInput, login_answered, get_current_user,
  update_timezone, change_password, delete_account, list_admin_users, delete_admin_user,
  fetch_backup_export, import_backup,
}
use task_calendar.Api.Calls.Settings.{
  UpdateAppSettingsInput, TestAppSettingsInput, get_settings, update_settings, test_settings,
  get_google_calendar_status, connect_google_calendar, disconnect_google_calendar,
  sync_google_calendar_now,
}
use task_calendar.Api.Calls.Tasks.{
  ListTasksOptions, UpdateTaskListInput, list_tasks, create_task, update_task, complete_task,
  uncomplete_task, delete_task, list_task_lists, create_task_list, update_task_list,
  delete_task_list,
}
use task_calendar.Storage.{LocalStorage}
use task_calendar.Task.{CreateScheduledTaskInput, UpdateScheduledTaskInput}
use task_calendar.Undo.{UpdateScope, DeleteScope}

-- What the requests are about.
pub record Arguments : Type 0 where
  pub search : List (Text × Text) → Text
  pub id : Text
  pub listing : ListTasksOptions
  pub input : CreateScheduledTaskInput
  pub update : UpdateScheduledTaskInput
  pub scope : Option UpdateScope
  pub removal : Option DeleteScope
  pub category : UpdateTaskListInput
  pub zone : UpdateTimezoneInput
  pub password : ChangePasswordInput
  pub account : DeleteAccountInput
  pub payload : Json
  pub settings : UpdateAppSettingsInput
  pub test : TestAppSettingsInput

-- Every request of the program but a sign-in, a registration and the health check.
abbrev pub session_calls : Option Text → Arguments → List Call
session_calls token a =
    list_tasks a.search token a.listing
    ∷ create_task token a.input
    ∷ update_task a.search token a.id a.update a.scope
    ∷ complete_task token a.id
    ∷ uncomplete_task token a.id
    ∷ delete_task a.search token a.id a.removal
    ∷ list_task_lists token
    ∷ create_task_list token a.id a.id
    ∷ update_task_list token a.id a.category
    ∷ delete_task_list token a.id
    ∷ get_current_user token
    ∷ update_timezone token a.zone
    ∷ change_password token a.password
    ∷ delete_account token a.account
    ∷ list_admin_users token
    ∷ delete_admin_user token a.id
    ∷ fetch_backup_export token
    ∷ import_backup token a.payload
    ∷ get_settings token
    ∷ update_settings token a.settings
    ∷ test_settings token a.test
    ∷ get_google_calendar_status token
    ∷ connect_google_calendar token
    ∷ disconnect_google_calendar token
    ∷ sync_google_calendar_now token
    ∷ []

-- The server is shown the token, and is told that the body is JSON.
abbrev pub Carries : Text → Call → Type 0
Carries token call =
    (entry (sent_headers call) (codes "Authorization") ≡ some (codes "Bearer " ++ token))
    × (entry (sent_headers call) (codes "Content-Type") ≡ some (codes "application/json"))

carried :
    (c : ℕ) (token : Text) (a : Arguments)
    → All (Carries (c ∷ token)) (session_calls (some (c ∷ token)) a)
unfolding sent_headers get_auth_headers entry text_eq list_tasks create_task update_task
    complete_task uncomplete_task delete_task list_task_lists create_task_list update_task_list
    delete_task_list get_current_user update_timezone change_password delete_account
    list_admin_users delete_admin_user fetch_backup_export import_backup get_settings
    update_settings test_settings get_google_calendar_status connect_google_calendar
    disconnect_google_calendar sync_google_calendar_now
carried c token a = (
  (refl, refl),
  (
    (refl, refl),
    (
      (refl, refl),
      (
        (refl, refl),
        (
          (refl, refl),
          (
            (refl, refl),
            (
              (refl, refl),
              (
                (refl, refl),
                (
                  (refl, refl),
                  (
                    (refl, refl),
                    (
                      (refl, refl),
                      (
                        (refl, refl),
                        (
                          (refl, refl),
                          (
                            (refl, refl),
                            (
                              (refl, refl),
                              (
                                (refl, refl),
                                (
                                  (refl, refl),
                                  (
                                    (refl, refl),
                                    (
                                      (refl, refl),
                                      (
                                        (refl, refl),
                                        (
                                          (refl, refl),
                                          (
                                            (refl, refl),
                                            ((refl, refl), ((refl, refl), ((refl, refl), tt))),
                                          ),
                                        ),
                                      ),
                                    ),
                                  ),
                                ),
                              ),
                            ),
                          ),
                        ),
                      ),
                    ),
                  ),
                ),
              ),
            ),
          ),
        ),
      ),
    ),
  ),
)

pub kept_token :
    (access token : Text) (storage kept : LocalStorage)
    → login_answered (Outcome.value access) storage ≡ some (token, kept)
    → get_stored_auth_token kept ≡ some (some access)
unfolding login_answered get_stored_auth_token store_auth_token
kept_token access token LocalStorage.missing kept h = absurd (ground (arith, h))
kept_token access token LocalStorage.blocked kept h = absurd (ground (arith, h))
kept_token access token (LocalStorage.store true items) kept h = absurd (ground (arith, h))
kept_token access token (LocalStorage.store false items) kept h =
    subst (λ l. get_stored_auth_token l ≡ some (some access)) (ap (λ q. q.1) (some_inj h))
      (ap (λ o. some o)
        (rw (entry-set_entry key access items key, (text_eq_iff key key).1 refl) refl))
  where
    key : Text
    key = codes "calendar-auth-token"

-- After a sign-in that gave a token, which is no empty text, and that could keep it, each request
-- that needs a session carries the token that the store holds, the same one, and names its body as
-- JSON.
pub login_answered-Carries :
    (access token : Text) (storage kept : LocalStorage) (stored : Option Text) (a : Arguments)
    → access ≢ []
    → login_answered (Outcome.value access) storage ≡ some (token, kept)
    → get_stored_auth_token kept ≡ some stored
    → All (Carries access) (session_calls stored a)
login_answered-Carries [] token storage kept stored a ne h k = absurd (ne refl)
login_answered-Carries (c ∷ access) token storage kept stored a ne h k =
    subst (λ s. All (Carries (c ∷ access)) (session_calls s a))
      (some_inj (sym (kept_token (c ∷ access) token storage kept h) ∙ k)) (carried c access a)
