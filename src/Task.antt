-- ===== src/Task.antt =====
-- The data model: `ScheduledTask`, `CreateScheduledTaskInput` and `UpdateScheduledTaskInput` of
-- frontend/src/api/tasks.ts, and the form states of frontend/src/App.tsx. `T | null` is `Option T`.
-- In an update, which is a `Partial`, a missing key is `none` around the field's own type.
use task_calendar.Base.{ℕ, Bool, Option, none, List, [], ◌∷◌, filter, is_some}
use task_calendar.Base.Text.{Text, codes}

pub record ScheduledTask : Type 0 where
  pub id : Text
  pub user_id : Text
  pub list_id : Option Text
  pub title : Text
  pub notes : Option Text
  pub completed : Bool
  pub scheduled_start : Option Text
  pub scheduled_end : Option Text
  pub all_day : Bool
  pub due_at : Option Text
  pub timezone : Text
  pub priority : Option ℕ
  pub unscheduled_order : Option ℕ
  pub recurrence_rule : Option Text
  pub recurrence_series_id : Option Text
  pub notification_enabled : Bool
  pub notification_offset_minutes : ℕ
  pub notification_channel : Option Text
  pub notification_sent_at : Option Text
  pub created_at : Text
  pub updated_at : Text
  pub completed_at : Option Text

pub record CreateScheduledTaskInput : Type 0 where
  pub title : Text
  pub list_id : Option (Option Text)
  pub notes : Option (Option Text)
  pub completed : Option Bool
  pub scheduled_start : Option (Option Text)
  pub scheduled_end : Option (Option Text)
  pub all_day : Option Bool
  pub due_at : Option (Option Text)
  pub timezone : Option Text
  pub priority : Option (Option ℕ)
  pub unscheduled_order : Option (Option ℕ)
  pub recurrence_rule : Option (Option Text)
  pub notification_enabled : Option Bool
  pub notification_offset_minutes : Option ℕ
  pub notification_channel : Option (Option Text)

pub record UpdateScheduledTaskInput : Type 0 where
  pub title : Option Text
  pub list_id : Option (Option Text)
  pub notes : Option (Option Text)
  pub scheduled_start : Option (Option Text)
  pub scheduled_end : Option (Option Text)
  pub all_day : Option Bool
  pub due_at : Option (Option Text)
  pub completed : Option Bool
  pub unscheduled_order : Option (Option ℕ)
  pub recurrence_rule : Option (Option Text)
  pub notification_enabled : Option Bool
  pub notification_offset_minutes : Option ℕ
  pub notification_channel : Option (Option Text)

-- `{}`
abbrev pub no_update : UpdateScheduledTaskInput
no_update = record {
  title = none;
  list_id = none;
  notes = none;
  scheduled_start = none;
  scheduled_end = none;
  all_day = none;
  due_at = none;
  completed = none;
  unscheduled_order = none;
  recurrence_rule = none;
  notification_enabled = none;
  notification_offset_minutes = none;
  notification_channel = none;
}

-- `keyof UpdateScheduledTaskInput`
pub data Field : Type 0 where
  title list_id notes scheduled_start scheduled_end all_day due_at completed : Field
  unscheduled_order recurrence_rule notification_enabled notification_offset_minutes : Field
  notification_channel : Field

abbrev pub all_fields : List Field
all_fields =
    Field.title ∷ Field.list_id ∷ Field.notes ∷ Field.scheduled_start ∷ Field.scheduled_end
    ∷ Field.all_day ∷ Field.due_at ∷ Field.completed ∷ Field.unscheduled_order
    ∷ Field.recurrence_rule ∷ Field.notification_enabled ∷ Field.notification_offset_minutes
    ∷ Field.notification_channel ∷ []

-- `field in updates`
abbrev pub has : UpdateScheduledTaskInput → Field → Bool
has u Field.title = is_some u.title
has u Field.list_id = is_some u.list_id
has u Field.notes = is_some u.notes
has u Field.scheduled_start = is_some u.scheduled_start
has u Field.scheduled_end = is_some u.scheduled_end
has u Field.all_day = is_some u.all_day
has u Field.due_at = is_some u.due_at
has u Field.completed = is_some u.completed
has u Field.unscheduled_order = is_some u.unscheduled_order
has u Field.recurrence_rule = is_some u.recurrence_rule
has u Field.notification_enabled = is_some u.notification_enabled
has u Field.notification_offset_minutes = is_some u.notification_offset_minutes
has u Field.notification_channel = is_some u.notification_channel

-- `Object.keys(updates)`; the order in which keys were added does not matter to any use of it.
unfoldable pub keys : UpdateScheduledTaskInput → List Field
keys u = filter (has u) all_fields

pub data RecurrenceFrequency : Type 0 where
  never daily weekly monthly yearly : RecurrenceFrequency

pub data ReminderMode : Type 0 where
  off on_time before : ReminderMode

pub data NotificationUnit : Type 0 where
  unset minutes hours days : NotificationUnit

pub record TaskFormState : Type 0 where
  pub title : Text
  pub list_id : Text
  pub scheduled_start : Text
  pub scheduled_end : Text
  pub notes : Text
  pub recurrence_frequency : RecurrenceFrequency
  pub recurrence_interval : Text
  pub recurrence_until : Text
  pub reminder_mode : ReminderMode
  pub notification_unit : NotificationUnit
  pub notification_offset_value : Text
  pub notification_channel : Text

abbrev pub initial_form_state : TaskFormState
initial_form_state = record {
  title = [];
  list_id = [];
  scheduled_start = [];
  scheduled_end = [];
  notes = [];
  recurrence_frequency = RecurrenceFrequency.never;
  recurrence_interval = codes "1";
  recurrence_until = [];
  reminder_mode = ReminderMode.off;
  notification_unit = NotificationUnit.unset;
  notification_offset_value = codes "0";
  notification_channel = [];
}

-- `EditFormState` is a `TaskFormState` with one more field.
pub record EditFormState : Type 0 where
  pub form : TaskFormState
  pub completed : Bool
