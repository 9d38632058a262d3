-- ===== src/Forms/Editing.antt =====
-- The form of a task that exists, frontend/src/App.tsx: `handleEditSubmit`, the question whether a
-- series is meant, and what clears and opens parts of the form.
use task_calendar.Base.{
  Bool, true, false, not, ◌||◌, Option, none, some, [], ◌==◌, all, length, if◌then◌else◌,
}
use task_calendar.Base.Text.{Text, codes, is_empty, truthy, text_eq, trim}
use task_calendar.Clock.{◌>>=◌}
use task_calendar.Platform.{Platform}
use task_calendar.Recurrence.{repeats}
use task_calendar.Task.{
  ScheduledTask, UpdateScheduledTaskInput, Field, keys, TaskFormState, EditFormState, ReminderMode,
  NotificationUnit, RecurrenceFrequency,
}
use task_calendar.Forms.{form_error, build_task_updates}

-- `supportedSeriesKeys.has(key)`
abbrev supports_series : Field → Bool
supports_series Field.completed = false
supports_series Field.due_at = false
supports_series Field.unscheduled_order = false
supports_series _ = true

unfoldable pub should_prompt_recurring_task_edit : ScheduledTask → UpdateScheduledTaskInput → Bool
unfolding keys
should_prompt_recurring_task_edit task updates =
    if not (truthy task.recurrence_series_id) || (length (keys updates) == 0)
    then false
    else all supports_series (keys updates)

-- What `handleEditSubmit` does: a message, no change, the question whether the whole series is
-- meant, or an update of the task alone.
pub data EditSubmission : Type 0 where
  rejected : Text → EditSubmission
  unchanged : EditSubmission
  asks : UpdateScheduledTaskInput → EditSubmission
  saves : UpdateScheduledTaskInput → EditSubmission

abbrev edit_of : ScheduledTask → UpdateScheduledTaskInput → EditSubmission
edit_of task updates =
    if length (keys updates) == 0
    then unchanged
    else if should_prompt_recurring_task_edit task updates
    then asks updates
    else saves updates

module _ (p : Platform) (timezone : Text) where
  abbrev editing : ScheduledTask → EditFormState → Option Text → Option EditSubmission
  editing task edit (some message) = some (EditSubmission.rejected message)
  editing task edit none = do
    updates ← build_task_updates p timezone task edit
    some (edit_of task updates)

  unfoldable pub handle_edit_submit : ScheduledTask → EditFormState → Option EditSubmission
  unfolding form_error build_task_updates should_prompt_recurring_task_edit
  handle_edit_submit task edit = do error ← form_error p timezone edit.form; editing task edit error

-- `clearedScheduleFields` put over a form.
unfoldable pub move_to_no_time : TaskFormState → TaskFormState
move_to_no_time form = record form {
  scheduled_start = [];
  scheduled_end = [];
  recurrence_frequency = RecurrenceFrequency.never;
  recurrence_interval = codes "1";
  recurrence_until = [];
  reminder_mode = ReminderMode.off;
  notification_unit = NotificationUnit.unset;
  notification_offset_value = codes "0";
  notification_channel = [];
}

abbrev is_off : ReminderMode → Bool
is_off ReminderMode.off = true
is_off _ = false

abbrev is_set : NotificationUnit → Bool
is_set NotificationUnit.unset = false
is_set _ = true

unfoldable pub has_schedule_clearable_data : TaskFormState → Bool
unfolding text_eq
has_schedule_clearable_data state =
    not (is_empty state.scheduled_start)
    || not (is_empty state.scheduled_end)
    || repeats state.recurrence_frequency
    || not (is_empty state.recurrence_until)
    || not (is_off state.reminder_mode)
    || is_set state.notification_unit
    || not (text_eq state.notification_offset_value (codes "0"))
    || not (is_empty state.notification_channel)

pub data AccordionSection : Type 0 where
  schedule organization notes : AccordionSection

unfoldable pub get_initial_edit_accordion_section : Option ScheduledTask → AccordionSection
get_initial_edit_accordion_section none = AccordionSection.schedule
get_initial_edit_accordion_section (some task) =
    if truthy task.scheduled_start
      || truthy task.scheduled_end
      || truthy task.recurrence_rule
      || task.notification_enabled
    then AccordionSection.schedule
    else if truthy task.list_id
    then AccordionSection.organization
    else if truthy (elim task.notes [ none ↦ none | some n ↦ some (trim n) ])
    then AccordionSection.notes
    else AccordionSection.schedule
