-- ===== src/Reminder.antt =====
-- The reminder of a task, frontend/src/App.tsx: `notificationFormStateFromTask` fills the form from
-- a task's offset in minutes, `getNotificationSettings` reads the form back.
pub mod RoundTrip
use task_calendar.Base.{
  ℕ, ◌*◌, ◌/◌, ◌%◌, Bool, true, false, not, ◌&&◌, Option, none, some, ltb, ◌==◌, if◌then◌else◌,
}
use task_calendar.Base.Text.{Text, codes}
use task_calendar.Base.Text.Decimal.{show}
use task_calendar.Input.{parse_positive_integer_or_zero}
use task_calendar.Task.{ScheduledTask, ReminderMode, NotificationUnit}

pub record ReminderState : Type 0 where
  pub reminder_mode : ReminderMode
  pub notification_unit : NotificationUnit
  pub notification_offset_value : Text

unfoldable pub notification_form_state_from_task : ScheduledTask → ReminderState
notification_form_state_from_task task =
    let offset = task.notification_offset_minutes in
    let mode = if offset == 0 then ReminderMode.on_time else ReminderMode.before in
    if not task.notification_enabled
    then record {
      reminder_mode = ReminderMode.off;
      notification_unit = NotificationUnit.unset;
      notification_offset_value = codes "0";
    }
    else if ltb 0 offset && offset % 1440 == 0
    then record {
      reminder_mode = mode;
      notification_unit = NotificationUnit.days;
      notification_offset_value = show (offset / 1440);
    }
    else if ltb 0 offset && offset % 60 == 0
    then record {
      reminder_mode = mode;
      notification_unit = NotificationUnit.hours;
      notification_offset_value = show (offset / 60);
    }
    else record {
      reminder_mode = mode;
      notification_unit = NotificationUnit.minutes;
      notification_offset_value = show offset;
    }

pub record NotificationSettings : Type 0 where
  pub enabled : Bool
  pub offset_minutes : ℕ
  pub channel : Option Text

unfoldable pub get_default_reminder_amount : Bool → Text
get_default_reminder_amount all_day = if all_day then codes "1" else codes "15"

unfoldable pub get_reminder_unit : ReminderState → Bool → NotificationUnit
get_reminder_unit state true = NotificationUnit.days
get_reminder_unit state false = elim state.notification_unit [
  | NotificationUnit.unset ↦ NotificationUnit.minutes
  | NotificationUnit.minutes ↦ NotificationUnit.minutes
  | NotificationUnit.hours ↦ NotificationUnit.hours
  | NotificationUnit.days ↦ NotificationUnit.days
]

abbrev unit_minutes : NotificationUnit → ℕ
unit_minutes NotificationUnit.days = 1440
unit_minutes NotificationUnit.hours = 60
unit_minutes NotificationUnit.minutes = 1
unit_minutes NotificationUnit.unset = 1

-- The amount typed, or the default where that is not a positive number.
unfoldable pub reminder_amount : ReminderState → Bool → ℕ
unfolding get_default_reminder_amount
reminder_amount state all_day =
    let parsed = parse_positive_integer_or_zero state.notification_offset_value in
    if ltb 0 parsed
    then parsed
    else parse_positive_integer_or_zero (get_default_reminder_amount all_day)

abbrev settings_for : ReminderMode → ReminderState → Bool → NotificationSettings
settings_for ReminderMode.off state all_day = record {
  enabled = false;
  offset_minutes = 0;
  channel = none;
}
settings_for ReminderMode.on_time state all_day = record {
  enabled = true;
  offset_minutes = 0;
  channel = some (codes "discord");
}
settings_for ReminderMode.before state all_day = record {
  enabled = true;
  offset_minutes =
      if all_day
      then reminder_amount state all_day * 1440
      else reminder_amount state all_day * unit_minutes state.notification_unit;
  channel = some (codes "discord");
}

unfoldable pub get_notification_settings : ReminderState → Bool → NotificationSettings
get_notification_settings state all_day = settings_for state.reminder_mode state all_day
