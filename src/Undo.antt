-- ===== src/Undo.antt =====
-- Undoing a change of a task, frontend/src/App.tsx: what is offered after an update or a delete,
-- and the inputs that put a task back from its snapshot.
pub mod Restore
pub mod Offer
use task_calendar.Base.{
  ℕ, Bool, true, false, not, ◌&&◌, ◌||◌, Option, none, some, List, [], ◌∷◌, is_some, any,
  if◌then◌else◌,
}
use task_calendar.Base.Text.{Text, codes, truthy}
use task_calendar.Task.{
  ScheduledTask, CreateScheduledTaskInput, UpdateScheduledTaskInput, no_update, Field, has, keys,
}

-- The `snapshot` of `buildTaskUpdateInputFromSnapshot`.
pub snapshot_of : ScheduledTask → UpdateScheduledTaskInput
snapshot_of task = record {
  title = some task.title;
  list_id = some task.list_id;
  notes = some task.notes;
  scheduled_start = some task.scheduled_start;
  scheduled_end = some task.scheduled_end;
  all_day = some task.all_day;
  due_at = some task.due_at;
  completed = some task.completed;
  unscheduled_order = some task.unscheduled_order;
  recurrence_rule = some task.recurrence_rule;
  notification_enabled = some task.notification_enabled;
  notification_offset_minutes = some task.notification_offset_minutes;
  notification_channel = some task.notification_channel;
}

pub assign_task_update_field :
    UpdateScheduledTaskInput → UpdateScheduledTaskInput → Field → UpdateScheduledTaskInput
assign_task_update_field u s Field.title = record u { title = s.title }
assign_task_update_field u s Field.list_id = record u { list_id = s.list_id }
assign_task_update_field u s Field.notes = record u { notes = s.notes }
assign_task_update_field u s Field.completed = record u { completed = s.completed }
assign_task_update_field u s Field.scheduled_start = record u {
  scheduled_start = s.scheduled_start;
}
assign_task_update_field u s Field.scheduled_end = record u { scheduled_end = s.scheduled_end }
assign_task_update_field u s Field.all_day = record u { all_day = s.all_day }
assign_task_update_field u s Field.due_at = record u { due_at = s.due_at }
assign_task_update_field u s Field.unscheduled_order = record u {
  unscheduled_order = s.unscheduled_order;
}
assign_task_update_field u s Field.recurrence_rule = record u {
  recurrence_rule = s.recurrence_rule;
}
assign_task_update_field u s Field.notification_enabled = record u {
  notification_enabled = s.notification_enabled;
}
assign_task_update_field u s Field.notification_offset_minutes = record u {
  notification_offset_minutes = s.notification_offset_minutes;
}
assign_task_update_field u s Field.notification_channel = record u {
  notification_channel = s.notification_channel;
}

-- `for (const field of restoreFields)`
assign_all :
    UpdateScheduledTaskInput → List Field → UpdateScheduledTaskInput → UpdateScheduledTaskInput
unfolding assign_task_update_field
assign_all snapshot [] update = update
assign_all snapshot (field ∷ fields) update =
    assign_all snapshot fields (assign_task_update_field update snapshot field)

pub build_task_update_input_from_snapshot :
    ScheduledTask → Option (List Field) → UpdateScheduledTaskInput
unfolding snapshot_of assign_all
build_task_update_input_from_snapshot task none = snapshot_of task
build_task_update_input_from_snapshot task (some restore_fields) =
    assign_all (snapshot_of task) restore_fields no_update

pub build_task_create_input_from_snapshot : ScheduledTask → CreateScheduledTaskInput
build_task_create_input_from_snapshot task = record {
  title = task.title;
  list_id = some task.list_id;
  notes = some task.notes;
  completed = some task.completed;
  scheduled_start = some task.scheduled_start;
  scheduled_end = some task.scheduled_end;
  all_day = some task.all_day;
  due_at = some task.due_at;
  timezone = some task.timezone;
  priority = some task.priority;
  unscheduled_order = some task.unscheduled_order;
  recurrence_rule = some task.recurrence_rule;
  notification_enabled = some task.notification_enabled;
  notification_offset_minutes = some task.notification_offset_minutes;
  notification_channel = some task.notification_channel;
}

pub build_duplicate_task_input : ScheduledTask → CreateScheduledTaskInput
build_duplicate_task_input task = record {
  title = task.title;
  list_id = some task.list_id;
  notes = some task.notes;
  completed = some false;
  scheduled_start = some task.scheduled_start;
  scheduled_end = some task.scheduled_end;
  all_day = some task.all_day;
  due_at = some task.due_at;
  timezone = some task.timezone;
  priority = some task.priority;
  unscheduled_order = some (
      if not (truthy task.scheduled_start)
        && not (truthy task.scheduled_end)
        && not (truthy task.due_at)
      then task.unscheduled_order
      else none);
  recurrence_rule = none;
  notification_enabled = some task.notification_enabled;
  notification_offset_minutes = some task.notification_offset_minutes;
  notification_channel = some task.notification_channel;
}

pub data UndoKind : Type 0 where
  update delete unavailable : UndoKind

pub data UpdateScope : Type 0 where
  single series : UpdateScope

pub data DeleteScope : Type 0 where
  single following : DeleteScope

pub record TaskUndoState : Type 0 where
  pub message : Text
  pub task : Option ScheduledTask
  pub kind : UndoKind
  pub restore_fields : Option (List Field)
  pub update_scope : Option UpdateScope

unfoldable pub has_recurring_detach_update : UpdateScheduledTaskInput → Bool
has_recurring_detach_update updates = any (has updates) (
    Field.title ∷ Field.list_id ∷ Field.scheduled_start ∷ Field.scheduled_end ∷ Field.all_day
    ∷ Field.notification_enabled ∷ Field.notification_offset_minutes ∷ Field.notification_channel
    ∷ [])

abbrev is_series : UpdateScope → Bool
is_series UpdateScope.single = false
is_series UpdateScope.series = true

unfoldable pub build_update_task_undo :
    ScheduledTask → UpdateScheduledTaskInput → UpdateScope → Text → Option TaskUndoState
unfolding has_recurring_detach_update keys
build_update_task_undo task updates update_scope message =
    if is_series update_scope
      || is_some updates.recurrence_rule
      || (truthy task.recurrence_series_id && has_recurring_detach_update updates)
    then none
    else some (record {
      message = message;
      task = some task;
      kind = UndoKind.update;
      restore_fields = some (keys updates);
      update_scope = none;
    })

abbrev is_following : DeleteScope → Bool
is_following DeleteScope.single = false
is_following DeleteScope.following = true

pub build_delete_task_undo : ScheduledTask → DeleteScope → Option TaskUndoState
build_delete_task_undo task delete_scope =
    if is_following delete_scope || truthy task.recurrence_series_id || truthy task.recurrence_rule
    then none
    else some (record {
      message = codes "Task deleted.";
      task = some task;
      kind = UndoKind.delete;
      restore_fields = none;
      update_scope = none;
    })
