-- ===== src/Account.antt =====
-- Who is signed in, and the panels of the settings, frontend/src/App.tsx. A handler that waits for
-- an answer is two functions, as in Session; an exception of the browser's store that no handler
-- catches is `none`.
pub mod SignIn
pub mod Settings
pub mod Backup
pub mod Users
pub mod Display
pub mod Steps
use task_calendar.Base.{ℕ, ◌+◌, Bool, true, false, Option, none, some, List, [], ◌∷◌, if◌then◌else◌}
use task_calendar.Base.Json.{Json}
use task_calendar.Base.Maps.{delete_entry}
use task_calendar.Base.Text.{Text, codes, trim}
use task_calendar.Api.{Outcome, ExpiredKind}
use task_calendar.Api.Answers.{AuthUser, AppSettings, AdminUser, GoogleCalendarStatus}
use task_calendar.Api.Calls.{get_stored_auth_token}
use task_calendar.Api.Calls.Accounts.{AuthCredentials, login_answered}
use task_calendar.Session.{Screen, Reply, message_or, reset_screen}
use task_calendar.Storage.{LocalStorage}
use task_calendar.Views.{TaskList}

pub data AuthMode : Type 0 where
  login register : AuthMode

pub data SettingsView : Type 0 where
  menu webhook google_calendar calendar_display backup account change_password delete_account
        admin :
      SettingsView

pub record PasswordForm : Type 0 where
  pub current_password : Text
  pub new_password : Text
  pub confirm_new_password : Text
  pub is_changing : Bool
  pub error : Option Text
  pub success : Option Text

pub record DeleteAccountForm : Type 0 where
  pub confirmation : Text
  pub is_deleting : Bool
  pub error : Option Text

pub record AdminPanel : Type 0 where
  pub users : List AdminUser
  pub error : Option Text
  pub is_loading : Bool
  pub candidate : Option AdminUser
  pub deleting_id : Option Text

-- `import_file` is the text of the chosen file.
pub record BackupPanel : Type 0 where
  pub summary : Option Json
  pub import_file : Option Text
  pub import_message : Option Text
  pub import_error : Option Text
  pub is_loading : Bool
  pub is_importing : Bool

-- `url` and `template` are the draft.
pub record WebhookPanel : Type 0 where
  pub settings : Option AppSettings
  pub url : Text
  pub template : Text
  pub test_message : Option Text
  pub is_daily_enabled : Bool
  pub is_saving : Bool
  pub is_testing : Bool

pub record GooglePanel : Type 0 where
  pub status : Option GoogleCalendarStatus
  pub error : Option Text
  pub is_loading : Bool
  pub is_connecting : Bool
  pub is_disconnecting : Bool
  pub is_syncing : Bool
  pub is_confirming : Bool

-- `reloads` counts the reloads of the page.
pub record Account : Type 0 where
  pub storage : LocalStorage
  pub auth_token : Option Text
  pub current_user : Option AuthUser
  pub auth_error : Option Text
  pub is_submitting : Bool
  pub auth_mode : AuthMode
  pub username : Text
  pub password : Text
  pub screen : Screen
  pub task_lists : List TaskList
  pub settings_view : Option SettingsView
  pub password_form : PasswordForm
  pub delete_form : DeleteAccountForm
  pub admin : AdminPanel
  pub backup : BackupPanel
  pub webhook : WebhookPanel
  pub google : GooglePanel
  pub reloads : ℕ

-- `clearStoredAuthToken`; `none` is an exception.
unfoldable pub clear_stored_auth_token : LocalStorage → Option LocalStorage
clear_stored_auth_token (LocalStorage.store full items) =
    some (LocalStorage.store full (delete_entry (codes "calendar-auth-token") items))
clear_stored_auth_token LocalStorage.missing = none
clear_stored_auth_token LocalStorage.blocked = none

unfoldable pub close_settings_panels : Account → Account
close_settings_panels a = record a { settings_view = none }

abbrev pub no_password : PasswordForm
no_password = record {
  current_password = [];
  new_password = [];
  confirm_new_password = [];
  is_changing = false;
  error = none;
  success = none;
}

unfoldable pub reset_account_forms : Account → Account
reset_account_forms a = record a {
  password_form = no_password;
  delete_form = record { confirmation = []; is_deleting = false; error = none };
  admin = record a.admin { error = none; candidate = none; deleting_id = none };
}

unfoldable pub reset_app_data : Account → Account
unfolding close_settings_panels reset_account_forms
reset_app_data a = reset_account_forms (
    close_settings_panels (record a {
      screen = reset_screen a.screen;
      task_lists = [];
      webhook = record a.webhook {
        settings = none;
        url = [];
        template = [];
        test_message = none;
        is_daily_enabled = false;
      };
      google = record {
        status = none;
        error = none;
        is_loading = false;
        is_connecting = false;
        is_disconnecting = false;
        is_syncing = false;
        is_confirming = false;
      };
      admin = record a.admin { users = []; error = none; is_loading = false; deleting_id = none };
      backup = record {
        summary = none;
        import_file = none;
        import_message = none;
        import_error = none;
        is_loading = false;
        is_importing = false;
      };
    }))

-- What both ways out of a session share, with the message that stays.
abbrev pub signed_out : Option Text → LocalStorage → Account → Account
signed_out error storage a =
    reset_app_data
      (record a { storage = storage; auth_token = none; current_user = none; auth_error = error })

-- What follows the removal of the token, where that does not throw.
abbrev pub leaving : (LocalStorage → Account) → Option LocalStorage → Option Account
leaving out none = none
leaving out (some storage) = some (out storage)

unfoldable pub handle_auth_expired : Account → Option Account
unfolding clear_stored_auth_token reset_app_data
handle_auth_expired a =
    leaving (λ storage. signed_out (some (codes "Session expired. Please log in again.")) storage a)
      (clear_stored_auth_token a.storage)

-- The message of an expired session reloads the page where Cloudflare's access has expired.
unfoldable pub handle_session_expired : ExpiredKind → Account → Option Account
unfolding handle_auth_expired
handle_session_expired ExpiredKind.cloudflare_access a = some (record a { reloads = a.reloads + 1 })
handle_session_expired ExpiredKind.application a = handle_auth_expired a

unfoldable pub handle_logout : Account → Option Account
unfolding clear_stored_auth_token reset_app_data reset_account_forms
handle_logout a =
    leaving (λ storage. reset_account_forms (signed_out none storage a))
      (clear_stored_auth_token a.storage)
