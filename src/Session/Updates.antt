-- ===== src/Session/Updates.antt =====
-- `runTaskUpdate`, `handleCheckboxChange` and `applyMobileQuickAction` of frontend/src/App.tsx, and
-- the dialog that asks whether a whole series is meant.
use task_calendar.Base.{true, false, not, ◌||◌, Option, none, some, [], ◌∷◌, if◌then◌else◌}
use task_calendar.Base.Int.{ℤ, pos, ◌+ℤ◌, ◌-ℤ◌, leb_ℤ}
use task_calendar.Base.Text.{Text, codes, truthy}
use task_calendar.Clock.{◌>>=◌}
use task_calendar.Clock.Civil.{time_clip, to_iso}
use task_calendar.Forms.Editing.{should_prompt_recurring_task_edit}
use task_calendar.Platform.{Platform}
use task_calendar.Session.{
  Screen, EditSource, PendingTaskEdit, Request, Reply, message_or, find, clear_undo_state,
  show_task_undo, reload_tasks, revert_pending, revert_calendar, close_detail_panel, offer_undo,
}
use task_calendar.Store.{replace_task_in_state}
use task_calendar.Task.{ScheduledTask, UpdateScheduledTaskInput, no_update, Field}
use task_calendar.Undo.{TaskUndoState, UndoKind, UpdateScope, build_update_task_undo}

-- What `runTaskUpdate` holds while it waits: its arguments, the task as it was, and the pending edit
-- of its closure.
pub record UpdateRun : Type 0 where
  pub task_id : Text
  pub updates : UpdateScheduledTaskInput
  pub update_scope : UpdateScope
  pub source : EditSource
  pub previous_task : Option ScheduledTask
  pub closure : Option PendingTaskEdit

abbrev sent_scope : UpdateScope → Option UpdateScope
sent_scope UpdateScope.single = none
sent_scope UpdateScope.series = some UpdateScope.series

unfoldable pub run_task_update :
    Text
    → UpdateScheduledTaskInput
    → UpdateScope
    → EditSource
    → Screen
    → Screen × UpdateRun × Request
unfolding clear_undo_state
run_task_update id updates update_scope source s = (
  record (clear_undo_state s) { form_error = none; is_edit_saving = true },
  record {
    task_id = id;
    updates = updates;
    update_scope = update_scope;
    source = source;
    previous_task = find s id;
    closure = s.pending_edit;
  },
  Request.patches id updates (sent_scope update_scope),
)

abbrev pub undo_of :
    Option ScheduledTask → UpdateScheduledTaskInput → UpdateScope → Text → Option TaskUndoState
undo_of none updates update_scope message = none
undo_of (some task) updates update_scope message =
    build_update_task_undo task updates update_scope message

abbrev pub kept_row : EditSource → ScheduledTask → Screen → Screen
kept_row EditSource.form row s = s
kept_row EditSource.calendar row s = record s { store = replace_task_in_state s.store row }

abbrev pub closed : EditSource → Option PendingTaskEdit → Screen → Screen
closed EditSource.form closure s = close_detail_panel closure s
closed EditSource.calendar closure s = s

abbrev pub taken_back : EditSource → Option PendingTaskEdit → Screen → Screen
taken_back EditSource.form closure s = s
taken_back EditSource.calendar closure s = record (revert_pending closure s) { pending_edit = none }

unfoldable pub run_task_update_answered : UpdateRun → Reply ScheduledTask → Screen → Screen
unfolding build_update_task_undo reload_tasks close_detail_panel show_task_undo
    replace_task_in_state
run_task_update_answered run (Reply.answered row) s =
    let undo = undo_of run.previous_task run.updates run.update_scope (codes "Task updated.") in
    let offered = record (offer_undo undo s) { pending_edit = none } in
    let reloading = reload_tasks (kept_row run.source row offered) in
    record (closed run.source run.closure reloading) { is_edit_saving = false }
run_task_update_answered run (Reply.refused error) s =
    record (taken_back run.source run.closure s) {
      form_error = some (message_or (codes "Unable to save task") error);
      is_edit_saving = false;
    }

-- The dialog's buttons: the edit of this task or of all of the series, and its end.
unfoldable pub choose_scope : PendingTaskEdit → UpdateScope → Screen → Screen × UpdateRun × Request
unfolding run_task_update
choose_scope pending update_scope s =
    run_task_update pending.task_id pending.updates update_scope pending.source s

unfoldable pub cancel_edit : PendingTaskEdit → Screen → Screen
cancel_edit pending s = record (revert_calendar (some pending) s) { pending_edit = none }

unfoldable pub handle_checkbox_change : ScheduledTask → Screen → Screen × Request
unfolding clear_undo_state
handle_checkbox_change task s = (
  clear_undo_state s,
  (if task.completed then Request.uncompletes task.id else Request.completes task.id),
)

unfoldable pub handle_checkbox_answered : ScheduledTask → Reply ScheduledTask → Screen → Screen
unfolding show_task_undo reload_tasks
handle_checkbox_answered task (Reply.answered row) s = reload_tasks (
    show_task_undo s (record {
      kind = UndoKind.update;
      task = some task;
      restore_fields = some (Field.completed ∷ []);
      message = if task.completed then codes "Task marked incomplete." else codes "Task completed.";
      update_scope = none;
    }))
handle_checkbox_answered task (Reply.refused error) s = record s {
  form_error = some (message_or (codes "Unable to update task") error);
}

pub data MobileQuickAction : Type 0 where
  earlier later shorten extend : MobileQuickAction

-- Fifteen minutes, in milliseconds.
abbrev pub step_ms : ℤ
step_ms = pos 900000

-- The new start and end; `none` where the handler returns early.
unfoldable pub quick_times : MobileQuickAction → ℤ → ℤ → Option (ℤ × ℤ)
quick_times MobileQuickAction.earlier start end = some (start -ℤ step_ms, end -ℤ step_ms)
quick_times MobileQuickAction.later start end = some (start +ℤ step_ms, end +ℤ step_ms)
quick_times MobileQuickAction.shorten start end =
    if leb_ℤ (end -ℤ start) step_ms then none else some (start, end -ℤ step_ms)
quick_times MobileQuickAction.extend start end = some (start, end +ℤ step_ms)

abbrev pub quick_input : ℤ → ℤ → UpdateScheduledTaskInput
quick_input start end = record no_update {
  scheduled_start = some (some (to_iso start));
  scheduled_end = some (some (to_iso end));
  all_day = some false;
}

-- A date that the shift makes invalid compares as NaN, and then throws.
abbrev pub quick_update : Option (ℤ × ℤ) → Option (Option UpdateScheduledTaskInput)
quick_update none = some none
quick_update (some (start, end)) = do
  s ← time_clip start
  e ← time_clip end
  some (if leb_ℤ e s then none else some (quick_input s e))

-- What a quick action does: nothing, a question about the series, or an update.
pub data QuickResult : Type 0 where
  nothing : QuickResult
  asks runs : UpdateScheduledTaskInput → QuickResult

abbrev quick_result : ScheduledTask → Option UpdateScheduledTaskInput → QuickResult
quick_result task none = QuickResult.nothing
quick_result task (some updates) =
    if should_prompt_recurring_task_edit task updates
    then QuickResult.asks updates
    else QuickResult.runs updates

module _ (p : Platform) where
  abbrev pub times_of : Option Text → Option Text → Option (ℤ × ℤ)
  times_of (some start) (some end) = do s ← p.parse_date start; e ← p.parse_date end; some (s, e)
  times_of _ _ = none

  -- `none` is an exception: the text of a date that is not valid. Where only one date is valid the
  -- source compares with NaN, which holds no return back, and then throws.
  unfoldable pub quick_action_updates :
      ScheduledTask → MobileQuickAction → Option (Option UpdateScheduledTaskInput)
  unfolding quick_times
  quick_action_updates task action =
      if task.all_day || not (truthy task.scheduled_start) || not (truthy task.scheduled_end)
      then some none
      else (times_of task.scheduled_start task.scheduled_end >>= λ t.
          quick_update (quick_times action t.0 t.1))

  unfoldable pub apply_mobile_quick_action : ScheduledTask → MobileQuickAction → Option QuickResult
  unfolding quick_action_updates
  apply_mobile_quick_action task action = do
    updates ← quick_action_updates task action
    some (quick_result task updates)

-- What the result of a quick action does to the screen, and the request that it sends.
unfoldable pub run_quick_result :
    ScheduledTask → QuickResult → Screen → Screen × Option (UpdateRun × Request)
unfolding run_task_update
run_quick_result task QuickResult.nothing s = (s, none)
run_quick_result task (QuickResult.asks updates) s = (
  record s {
    pending_edit = some (record {
      task_id = task.id;
      updates = updates;
      source = EditSource.calendar;
      reverts = false;
    });
  },
  none,
)
run_quick_result task (QuickResult.runs updates) s =
    let (next, run, request) =
      run_task_update task.id updates UpdateScope.single EditSource.calendar s in
    (next, some (run, request))
