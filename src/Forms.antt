-- ===== src/Forms.antt =====
-- The task form, frontend/src/App.tsx: the checks of `handleSubmit`, the
-- input of a new task, and `buildTaskUpdates`, the changes that an edit makes. `none` is an
-- exception.
pub mod Edits
pub mod Checks
pub mod Editing
use task_calendar.Base.{
  ℕ, Bool, true, false, not, ◌&&◌, ◌||◌, Option, none, some, List, [], ◌∷◌, ltb, ◌==◌, all, length,
  if◌then◌else◌, is_some,
}
use task_calendar.Base.Text.{Text, codes, is_empty, truthy, or_null, text_eq, option_text_eq, trim}
use task_calendar.Clock.{◌>>=◌}
use task_calendar.Clock.Keys.{
  get_date_only_scheduled_start_iso, to_iso_or_null, is_valid_time_range,
}
use task_calendar.Input.{
  has_incomplete_date_time_value, is_complete_date_time_value, parse_positive_integer_or_zero,
}
use task_calendar.Platform.{Platform}
use task_calendar.Recurrence.{
  RecurrenceState, repeats, build_recurrence_rule, validate_recurrence_until,
}
use task_calendar.Reminder.{ReminderState, NotificationSettings, get_notification_settings}
use task_calendar.Task.{
  ScheduledTask, CreateScheduledTaskInput, UpdateScheduledTaskInput, Field, has, keys,
  TaskFormState, EditFormState, ReminderMode, NotificationUnit, RecurrenceFrequency,
}

abbrev pub recurrence_state : TaskFormState → RecurrenceState
recurrence_state form = record {
  recurrence_frequency = form.recurrence_frequency;
  recurrence_interval = form.recurrence_interval;
  recurrence_until = form.recurrence_until;
}

abbrev pub reminder_state : TaskFormState → ReminderState
reminder_state form = record {
  reminder_mode = form.reminder_mode;
  notification_unit = form.notification_unit;
  notification_offset_value = form.notification_offset_value;
}

-- `Boolean(iso) && !scheduledEnd`
abbrev pub is_date_only : Option Text → Text → Bool
is_date_only iso scheduled_end = truthy iso && is_empty scheduled_end

-- The values that the form stands for, which a new task takes and an edit compares.
pub record FormValues : Type 0 where
  pub title : Text
  pub list_id : Option Text
  pub notes : Option Text
  pub scheduled_start : Option Text
  pub scheduled_end : Option Text
  pub all_day : Bool
  pub recurrence_rule : Option Text
  pub notification_enabled : Bool
  pub notification_offset_minutes : ℕ
  pub notification_channel : Option Text

abbrev same_bool : Bool → Bool → Bool
same_bool true b = b
same_bool false b = not b

-- `if (value !== old) updates.field = value`
abbrev pub changed {ℓ} : {A : Type ℓ} → Bool → A → Option A
changed same value = if same then none else some value

abbrev pub updates_of : ScheduledTask → FormValues → Bool → UpdateScheduledTaskInput
updates_of task v completed = record {
  title = changed (text_eq v.title task.title) v.title;
  list_id = changed (option_text_eq v.list_id task.list_id) v.list_id;
  notes = changed (option_text_eq v.notes task.notes) v.notes;
  scheduled_start =
      changed (option_text_eq v.scheduled_start task.scheduled_start) v.scheduled_start;
  scheduled_end = changed (option_text_eq v.scheduled_end task.scheduled_end) v.scheduled_end;
  all_day = changed (same_bool v.all_day task.all_day) v.all_day;
  due_at = none;
  completed = changed (same_bool completed task.completed) completed;
  unscheduled_order = none;
  recurrence_rule =
      changed (option_text_eq v.recurrence_rule task.recurrence_rule) v.recurrence_rule;
  notification_enabled =
      changed (same_bool v.notification_enabled task.notification_enabled) v.notification_enabled;
  notification_offset_minutes =
      changed (v.notification_offset_minutes == task.notification_offset_minutes)
        v.notification_offset_minutes;
  notification_channel =
      changed (option_text_eq v.notification_channel task.notification_channel)
        v.notification_channel;
}

-- What `handleSubmit` does with the form: it shows a message, sends an input, or catches an
-- exception while it makes the input.
pub data Submission : Type 0 where
  rejected : Text → Submission
  sent : CreateScheduledTaskInput → Submission
  failed : Submission

module _ (p : Platform) (timezone : Text) where
  unfoldable pub is_all_day_form_task : TaskFormState → Option Bool
  is_all_day_form_task form = do
    iso ← get_date_only_scheduled_start_iso p form.scheduled_start timezone
    some (is_date_only iso form.scheduled_end)

  -- A start or an end that is only used if the form is not of a whole day.
  abbrev timed : Bool → Option Text → Text → Option (Option Text)
  timed true date_only value = some date_only
  timed false date_only value = to_iso_or_null p value timezone

  unfoldable pub form_values : TaskFormState → Option FormValues
  form_values form = do
    date_only ← get_date_only_scheduled_start_iso p form.scheduled_start timezone
    let all_day = is_date_only date_only form.scheduled_end
    start ← timed all_day date_only form.scheduled_start
    end ← timed all_day none form.scheduled_end
    rule ← build_recurrence_rule p (recurrence_state form) timezone
    let settings = get_notification_settings (reminder_state form) all_day
    some (record {
      title = trim form.title;
      list_id = or_null form.list_id;
      notes = or_null (trim form.notes);
      scheduled_start = start;
      scheduled_end = end;
      all_day = all_day;
      recurrence_rule = rule;
      notification_enabled = settings.enabled;
      notification_offset_minutes = settings.offset_minutes;
      notification_channel = settings.channel;
    })

  unfoldable pub build_task_updates :
      ScheduledTask → EditFormState → Option UpdateScheduledTaskInput
  build_task_updates task edit = do
    v ← form_values edit.form
    some (updates_of task v edit.completed)

  -- The checks that come after the title's and know whether the task is of a whole day.
  abbrev pub schedule_error : TaskFormState → Bool → Option (Option Text)
  schedule_error form all_day =
      if not all_day
        && (has_incomplete_date_time_value form.scheduled_start
            || has_incomplete_date_time_value form.scheduled_end)
      then some (some (codes "Start and end must include both date and time"))
      else if not (is_valid_time_range p form.scheduled_start form.scheduled_end)
      then some (some (codes "End time must be after start time"))
      else if repeats form.recurrence_frequency
          && (not all_day && not (is_complete_date_time_value form.scheduled_start))
      then some (some (codes "Recurring tasks require a start time"))
      else if repeats form.recurrence_frequency
          && ltb (parse_positive_integer_or_zero form.recurrence_interval) 1
      then some (some (codes "Recurrence interval must be at least 1"))
      else validate_recurrence_until p form.recurrence_frequency form.recurrence_until
          form.scheduled_start timezone

  -- The checks before a form is sent, in their order: the message of the first that fails.
  unfoldable pub form_error : TaskFormState → Option (Option Text)
  unfolding is_all_day_form_task
  form_error form =
      if is_empty (trim form.title)
      then some (some (codes "Title is required"))
      else (is_all_day_form_task form >>= schedule_error form)

  abbrev pub create_input_of : FormValues → CreateScheduledTaskInput
  create_input_of v = record {
    title = v.title;
    list_id = some v.list_id;
    notes = some v.notes;
    completed = none;
    scheduled_start = some v.scheduled_start;
    scheduled_end = some v.scheduled_end;
    all_day = some v.all_day;
    due_at = some none;
    timezone = some timezone;
    priority = none;
    unscheduled_order = none;
    recurrence_rule = some v.recurrence_rule;
    notification_enabled = some v.notification_enabled;
    notification_offset_minutes = some v.notification_offset_minutes;
    notification_channel = some v.notification_channel;
  }

  abbrev sending : Option FormValues → Submission
  sending none = Submission.failed
  sending (some v) = Submission.sent (create_input_of v)

  abbrev submitting : TaskFormState → Option Text → Submission
  submitting form (some message) = Submission.rejected message
  submitting form none = sending (form_values form)

  unfoldable pub handle_submit : TaskFormState → Option Submission
  unfolding form_error form_values
  handle_submit form = do error ← form_error form; some (submitting form error)
