-- ===== src/Api/Answers.antt =====
-- What the server answers beside tasks and categories: the types of frontend/src/api/auth.ts,
-- settings.ts, admin.ts, backup.ts and googleCalendar.ts.
use task_calendar.Base.{ℕ, Bool, Option}
use task_calendar.Base.Text.{Text}

pub record AuthUser : Type 0 where
  pub id : Text
  pub username : Text
  pub is_admin : Bool
  pub timezone : Option Text
  pub created_at : Text
  pub updated_at : Text

pub record AppSettings : Type 0 where
  pub id : ℕ
  pub discord_webhook_url : Option Text
  pub discord_message_template : Option Text
  pub working_hours_start : Text
  pub week_start : Text
  pub daily_todo_notification_enabled : Bool
  pub created_at : Text
  pub updated_at : Text

-- A missing `email` and one that is null are the same to the program.
pub record AdminUser : Type 0 where
  pub id : Text
  pub username : Text
  pub email : Option Text
  pub is_admin : Bool
  pub created_at : Text
  pub updated_at : Text

pub record BackupImportResult : Type 0 where
  pub imported_task_lists : ℕ
  pub imported_tasks : ℕ

pub data SyncStatus : Type 0 where
  connected needs_reauth disabled error : SyncStatus

pub record GoogleCalendarStatus : Type 0 where
  pub connected : Bool
  pub status : SyncStatus
  pub mirror_calendar_summary : Option Text
  pub last_successful_sync_at : Option Text
  pub last_error_when_safe_to_show : Option Text
  pub pending_sync_items : ℕ
  pub processing_sync_items : ℕ
  pub retrying_sync_items : ℕ
