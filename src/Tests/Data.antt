-- ===== src/Tests/Data.antt =====
-- Test data: tasks, a time zone with one change of its offset, and a browser that reads only the
-- dates that the program itself writes.
use task_calendar.Base.{true, false, Option, none, some, [], if◌then◌else◌, ◌≡◌, ◌≢◌, arith, take}
use task_calendar.Base.Int.{ℤ, pos, ltb_ℤ}
use task_calendar.Base.Text.{Text, codes, text_eq, text_eq_iff}
use task_calendar.Clock.{wall_clock_ms}
use task_calendar.Platform.{Platform}
use task_calendar.Session.{Screen}
use task_calendar.Store.{no_tasks}
use task_calendar.Task.{
  ScheduledTask, UpdateScheduledTaskInput, TaskFormState, initial_form_state, no_update,
  RecurrenceFrequency,
}

abbrev pub milk : ScheduledTask
milk = record {
  id = codes "a";
  user_id = codes "u";
  list_id = some (codes "home");
  title = codes "Milk";
  notes = none;
  completed = false;
  scheduled_start = none;
  scheduled_end = none;
  all_day = false;
  due_at = none;
  timezone = codes "Europe/Berlin";
  priority = none;
  unscheduled_order = some 1;
  recurrence_rule = none;
  recurrence_series_id = none;
  notification_enabled = true;
  notification_offset_minutes = 90;
  notification_channel = some (codes "discord");
  notification_sent_at = none;
  created_at = codes "2026-01-01T00:00:00.000Z";
  updated_at = codes "2026-01-02T00:00:00.000Z";
  completed_at = none;
}

abbrev pub bread : ScheduledTask
bread = record milk { id = codes "b"; title = codes "Bread"; unscheduled_order = none }

abbrev pub gym : ScheduledTask
gym = record milk {
  id = codes "c";
  recurrence_series_id = some (codes "s");
  scheduled_start = some (codes "2026-03-30T08:00:00.000Z");
}

abbrev pub shopping : UpdateScheduledTaskInput
shopping = record no_update { title = some (codes "Shopping"); completed = some true }

-- Central Europe about the end of March 2026: one hour ahead of UTC, then two.
abbrev pub spring : ℤ
spring = pos 1774746000000

abbrev pub berlin : Text → ℤ → ℤ
berlin timezone t = if ltb_ℤ t spring then pos 3600000 else pos 7200000

-- Reads a date to its second, as UTC.
unfoldable pub read_date : Text → Option ℤ
read_date s = wall_clock_ms (take 19 s)

abbrev pub browser : Platform
browser = record {
  parse_date = read_date;
  offset = berlin;
  format_date = λ t timezone. [];
  format_date_time = λ t timezone. [];
  format_time_only = λ t timezone. [];
  locale_compare = λ s t. pos 0;
}

abbrev pub weekly_form : TaskFormState
weekly_form = record initial_form_state {
  title = codes " Gym ";
  scheduled_start = codes "2026-03-30T10:00";
  scheduled_end = codes "2026-03-30T11:30";
  recurrence_frequency = RecurrenceFrequency.weekly;
  recurrence_interval = codes "2";
  recurrence_until = codes "2026-06-30";
}

pub differ : (s t : Text) → text_eq s t ≡ false → s ≢ t
differ s t h = λ e. ground (arith, text_eq_iff s t)

-- A screen before the tasks are loaded.
abbrev pub empty_screen : Screen
empty_screen = record {
  store = no_tasks;
  unscheduled_order = [];
  undo = none;
  snackbar = none;
  form_error = none;
  pending_edit = none;
  pending_delete = none;
  selected = none;
  panel = none;
  menu = none;
  is_edit_saving = false;
  is_deleting = false;
  is_undoing = false;
  is_duplicating = false;
  reverted = 0;
  listing = 0;
}
