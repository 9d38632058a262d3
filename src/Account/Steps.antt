-- ===== src/Account/Steps.antt =====
-- The session as a state machine: what can happen to a window of frontend/src/App.tsx, one step for
-- each handler of Account and each answer. Answers may come in any order, also late ones. Other
-- windows do not write to the store.
pub mod Token
use task_calendar.Base.{Bool, Option, none, some, List, ◌≡◌}
use task_calendar.Base.Json.{Json, JsonText}
use task_calendar.Base.Text.{Text}
use task_calendar.Account.{Account, handle_session_expired, handle_auth_expired, handle_logout}
use task_calendar.Account.Backup.{
  handle_open_backup_summary, backup_summary_answered, handle_backup_import_file_change,
  handle_confirm_backup_import, backup_import_answered,
}
use task_calendar.Account.Settings.{
  open_settings_menu, open_webhook_settings, open_google_calendar_settings, open_backup_settings,
  open_account_settings, open_change_password_settings, open_delete_account_settings,
  open_admin_settings, google_status_answered, save_webhook_settings, handle_save_webhook_answered,
}
use task_calendar.Account.SignIn.{
  UserAnswer, handle_auth_submit, registered, sign_in_answered, submit_user_answered, user_answered,
}
use task_calendar.Account.Users.{
  handle_save_password_change, handle_password_answered, handle_delete_account,
  handle_delete_account_answered, handle_delete_admin_user, admin_user_deleted,
  admin_users_answered,
}
use task_calendar.Api.{ExpiredKind}
use task_calendar.Api.Answers.{
  AuthUser, AppSettings, AdminUser, BackupImportResult, GoogleCalendarStatus,
}
use task_calendar.Api.Calls.Accounts.{AuthCredentials}
use task_calendar.Prefs.Initial.{Preferences, save_preferences}
use task_calendar.Session.{Reply, PendingTaskEdit}

pub data Step (a : Account) : Account → Type 0 where
  submit : Step a (handle_auth_submit a).0
  registration :
      (credentials : AuthCredentials) (reply : Reply AuthUser)
      → Step a (registered credentials reply a).0
  sign_in :
      (refusal : Option Text) (reply : Reply Text) → Step a (sign_in_answered refusal reply a).0
  sign_in_user : (reply : Reply AuthUser) → Step a (submit_user_answered reply a)
  user : {b : Account} (answer : UserAnswer) → user_answered answer a ≡ some b → Step a b
  expired : {b : Account} (kind : ExpiredKind) → handle_session_expired kind a ≡ some b → Step a b
  logout : {b : Account} → handle_logout a ≡ some b → Step a b
  change_password : Step a (handle_save_password_change a).0
  password_changed : (reply : Reply Text) → Step a (handle_password_answered reply a)
  delete_account : Step a (handle_delete_account a).0
  account_deleted :
      (refusal : Option Text) (reply : Reply Text)
      → Step a (handle_delete_account_answered refusal reply a)
  delete_user : Step a (handle_delete_admin_user a).0
  user_deleted : (reply : Reply Text) → Step a (admin_user_deleted reply a)
  users_listed : (reply : Reply (List AdminUser)) → Step a (admin_users_answered reply a)
  save_webhook : Step a (save_webhook_settings a).0
  webhook_saved :
      (closure : Option PendingTaskEdit) (reply : Reply AppSettings)
      → Step a (handle_save_webhook_answered closure reply a)
  google_status : (reply : Reply GoogleCalendarStatus) → Step a (google_status_answered reply a)
  import_backup :
      (json : JsonText) (file : Option Text) → Step a (handle_confirm_backup_import json file a).0
  backup_imported : (reply : Reply BackupImportResult) → Step a (backup_import_answered reply a)
  save_prefs :
      (json : JsonText) (p : Preferences)
      → Step a (record a { storage = save_preferences json p a.storage })

-- Any number of steps.
pub data Reaches (a : Account) : Account → Type 0 where
  done : Reaches a a
  next : {b c : Account} → Reaches a b → Step b c → Reaches a c
