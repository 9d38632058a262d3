-- ===== src/Reminder/RoundTrip.antt =====
-- Opening a task's reminder in the form and saving it keeps the offset.
use task_calendar.Base.{◌*◌, ◌%◌, ◌==◌, true, ◌/◌, ◌≡◌, false, none, some, if◌then◌else◌, arith}
use task_calendar.Base.Text.{codes}
use task_calendar.Input.Laws.{count-show}
use task_calendar.Task.{ScheduledTask}
use task_calendar.Reminder.{
  notification_form_state_from_task, get_notification_settings, reminder_amount,
}

-- The reminder settings of the form that is opened for a task, read as those of a task that is not
-- of a whole day, are the task's: the same minutes if it has a reminder, and else no reminder, with
-- 0 minutes and no channel.
pub settings_form_round_trip :
    (task : ScheduledTask)
    → get_notification_settings (notification_form_state_from_task task) false ≡ record {
      enabled = task.notification_enabled;
      offset_minutes = if task.notification_enabled then task.notification_offset_minutes else 0;
      channel = if task.notification_enabled then some (codes "discord") else none;
    }
unfolding get_notification_settings notification_form_state_from_task reminder_amount
settings_form_round_trip task = ground (
  arith,
  count-show task.notification_offset_minutes,
  count-show (task.notification_offset_minutes / 60),
  count-show (task.notification_offset_minutes / 1440),
)

-- For a task of a whole day the form reads the shown number as days: a reminder of whole days comes
-- back, and one of other hours or minutes becomes as many days.
pub all_day_offset_round_trip :
    (task : ScheduledTask)
    → (get_notification_settings (notification_form_state_from_task task) true).offset_minutes ≡ (
        if task.notification_enabled
        then (let m = task.notification_offset_minutes in
            if m % 1440 == 0 then m else if m % 60 == 0 then m / 60 * 1440 else m * 1440)
        else 0)
unfolding get_notification_settings notification_form_state_from_task reminder_amount
all_day_offset_round_trip task = ground (
  arith,
  count-show task.notification_offset_minutes,
  count-show (task.notification_offset_minutes / 60),
  count-show (task.notification_offset_minutes / 1440),
)
