-- ===== src/Session/Removals.antt =====
-- `runTaskDelete`, `handleDuplicateFromMenu` and `handleUndoTaskChange` of frontend/src/App.tsx.
use task_calendar.Base.{Bool, true, false, not, ◌&&◌, Option, none, some, if◌then◌else◌}
use task_calendar.Base.Maps.{delete_entry}
use task_calendar.Base.Text.{Text, codes, text_eq, truthy}
use task_calendar.Order.{Position, move_task_id_relative}
use task_calendar.Session.{
  Screen, PendingTaskEdit, DeleteSource, ContextMenu, Request, Reply, message_or, find,
  clear_undo_state, reload_tasks, close_detail_panel, offer_undo,
}
use task_calendar.Store.{replace_task_in_state}
use task_calendar.Task.{ScheduledTask}
use task_calendar.Undo.{
  TaskUndoState, UndoKind, UpdateScope, DeleteScope, build_delete_task_undo,
  build_task_create_input_from_snapshot, build_task_update_input_from_snapshot,
  build_duplicate_task_input,
}

-- Whether the dialog for a recurring task opens, and the screen then.
unfoldable pub prompt_recurring_task_delete : ScheduledTask → DeleteSource → Screen → Option Screen
prompt_recurring_task_delete task source s =
    if not (truthy task.recurrence_series_id) && not (truthy task.recurrence_rule)
    then none
    else some (record s {
      menu = none;
      pending_delete = some (record { task_id = task.id; source = source });
    })

-- What `runTaskDelete` holds while it waits. `selected` and `closure` are those of its closure.
pub record DeleteRun : Type 0 where
  pub task_id : Text
  pub source : DeleteSource
  pub delete_scope : DeleteScope
  pub previous_task : Option ScheduledTask
  pub selected : Option Text
  pub closure : Option PendingTaskEdit

unfoldable pub run_task_delete :
    Text → DeleteSource → DeleteScope → Screen → Screen × DeleteRun × Request
unfolding clear_undo_state
run_task_delete id source delete_scope s = (
  record (clear_undo_state s) { form_error = none; is_deleting = true; pending_delete = none },
  record {
    task_id = id;
    source = source;
    delete_scope = delete_scope;
    previous_task = find s id;
    selected = s.selected;
    closure = s.pending_edit;
  },
  Request.deletes id delete_scope,
)

abbrev pub delete_undo : Option ScheduledTask → DeleteScope → Option TaskUndoState
delete_undo none delete_scope = none
delete_undo (some task) delete_scope = build_delete_task_undo task delete_scope

abbrev is_selected : Option Text → Text → Bool
is_selected none id = false
is_selected (some selected) id = text_eq selected id

abbrev after_delete : DeleteRun → DeleteSource → Screen → Screen
after_delete run DeleteSource.detail s = close_detail_panel run.closure s
after_delete run DeleteSource.menu s =
    if is_selected run.selected run.task_id then close_detail_panel run.closure s else record s {
      selected = if is_selected s.selected run.task_id then none else s.selected;
      menu = none;
    }

unfoldable pub run_task_delete_answered {ℓ} : {A : Type ℓ} → DeleteRun → Reply A → Screen → Screen
unfolding close_detail_panel reload_tasks
run_task_delete_answered run (Reply.answered _) s =
    let forgotten = record s {
      store = record s.store { local = delete_entry run.task_id s.store.local };
      pending_delete = none;
    } in
    let offered = offer_undo (delete_undo run.previous_task run.delete_scope) forgotten in
    record (reload_tasks (after_delete run run.source offered)) { is_deleting = false }
run_task_delete_answered run (Reply.refused error) s = record s {
  form_error = some (message_or (codes "Unable to delete task") error);
  is_deleting = false;
}

-- The task that the menu is open for is duplicated; `none` is no request.
abbrev duplicating : Option ScheduledTask → Screen → Screen × Option (ScheduledTask × Request)
duplicating none s = (record s { menu = none }, none)
duplicating (some task) s = (
  record (clear_undo_state s) { form_error = none; is_duplicating = true },
  some (task, Request.posts (build_duplicate_task_input task)),
)

abbrev duplicating_at : Option ContextMenu → Screen → Screen × Option (ScheduledTask × Request)
duplicating_at (some (ContextMenu.task id)) s = duplicating (find s id) s
duplicating_at (some (ContextMenu.category id)) s = (s, none)
duplicating_at none s = (s, none)

unfoldable pub handle_duplicate_from_menu : Screen → Screen × Option (ScheduledTask × Request)
unfolding clear_undo_state
handle_duplicate_from_menu s = duplicating_at s.menu s

unfoldable pub handle_duplicate_answered : ScheduledTask → Reply ScheduledTask → Screen → Screen
unfolding replace_task_in_state reload_tasks
handle_duplicate_answered source (Reply.answered row) s =
    record (reload_tasks (record s {
      store = replace_task_in_state s.store row;
      menu = none;
      unscheduled_order =
          if not (truthy row.scheduled_start) && not (truthy row.scheduled_end)
          then move_task_id_relative s.unscheduled_order row.id source.id Position.after
          else s.unscheduled_order;
    })) { is_duplicating = false }
handle_duplicate_answered source (Reply.refused error) s = record s {
  form_error = some (message_or (codes "Unable to duplicate task") error);
  is_duplicating = false;
}

abbrev undo_scope : Option UpdateScope → Option UpdateScope
undo_scope (some UpdateScope.series) = some UpdateScope.series
undo_scope _ = none

-- What an undo asks of the server; `none` is an undo that asks nothing.
abbrev undoing : UndoKind → Option ScheduledTask → TaskUndoState → Option Request
undoing UndoKind.unavailable task undo = none
undoing UndoKind.delete none undo = none
undoing UndoKind.delete (some task) undo =
    some (Request.posts (build_task_create_input_from_snapshot task))
undoing UndoKind.update none undo = none
undoing UndoKind.update (some task) undo = some (
    Request.patches task.id (build_task_update_input_from_snapshot task undo.restore_fields)
      (undo_scope undo.update_scope))

unfoldable pub undo_request : TaskUndoState → Option Request
undo_request undo = undoing undo.kind undo.task undo

-- Without an offered undo the handler returns; one that asks nothing is dropped at once.
abbrev undo_started : Option TaskUndoState → Screen → Screen × Option (TaskUndoState × Request)
undo_started none s = (s, none)
undo_started (some undo) s = elim (undo_request undo) [
  | none ↦ (record s { form_error = none; undo = none; is_undoing = false }, none)
  | some request ↦ (record s { form_error = none; is_undoing = true }, some (undo, request))
]

unfoldable pub handle_undo_task_change : Screen → Screen × Option (TaskUndoState × Request)
unfolding undo_request
handle_undo_task_change s = undo_started s.undo s

abbrev undone : UndoKind → Option UpdateScope → ScheduledTask → Screen → Screen
undone UndoKind.update (some UpdateScope.series) row s = reload_tasks s
undone UndoKind.update scope row s =
    reload_tasks (record s { store = replace_task_in_state s.store row })
undone kind scope row s = record s { store = replace_task_in_state s.store row }

unfoldable pub handle_undo_answered : TaskUndoState → Reply ScheduledTask → Screen → Screen
unfolding replace_task_in_state reload_tasks
handle_undo_answered undo (Reply.answered row) s =
    record (undone undo.kind undo.update_scope row s) { undo = none; is_undoing = false }
handle_undo_answered undo (Reply.refused error) s = record s {
  form_error = some (message_or (codes "Unable to undo task change") error);
  is_undoing = false;
}
