-- ===== src/Session/Moves.antt =====
-- `handleEventDrop`, `handleEventResize` and `handleExternalTaskDrop` of frontend/src/App.tsx: a
-- task that is moved, resized or dropped in the calendar. `none` is an exception.
use task_calendar.Base.{◌+◌, Bool, true, false, Option, none, some, if◌then◌else◌}
use task_calendar.Base.Int.{ℤ}
use task_calendar.Base.Text.{Text, codes}
use task_calendar.Calendar.{
  CalendarEvent, get_calendar_event_schedule_update, get_calendar_drop_schedule_update,
}
use task_calendar.Clock.{◌>>=◌}
use task_calendar.Forms.Editing.{should_prompt_recurring_task_edit}
use task_calendar.Platform.{Platform}
use task_calendar.Session.{
  Screen, EditSource, Request, Reply, message_or, find, clear_undo_state, reload_tasks, offer_undo,
}
use task_calendar.Session.Updates.{undo_of}
use task_calendar.Store.{replace_task_in_state}
use task_calendar.Task.{ScheduledTask, UpdateScheduledTaskInput}
use task_calendar.Undo.{UpdateScope}

-- What a handler does before it waits: it ends, with the screen that it leaves, or it sends updates
-- of the task that it has found.
pub data MoveStep : Type 0 where
  ends : Screen → MoveStep
  sends : Screen → Option ScheduledTask → UpdateScheduledTaskInput → Request → MoveStep

abbrev sent_back : Screen → Screen
sent_back s = record s { reverted = s.reverted + 1 }

abbrev asking : ScheduledTask → UpdateScheduledTaskInput → Bool → Screen → Screen
asking task updates reverts s = record s {
  pending_edit = some (record {
    task_id = task.id;
    updates = updates;
    source = EditSource.calendar;
    reverts = reverts;
  });
}

-- The dialog, if the whole series may be meant, or else the request.
abbrev move_step : Text → Option ScheduledTask → UpdateScheduledTaskInput → Bool → Screen → MoveStep
move_step id none updates reverts s =
    MoveStep.sends s none updates (Request.patches id updates none)
move_step id (some task) updates reverts s =
    if should_prompt_recurring_task_edit task updates
    then MoveStep.ends (asking task updates reverts s)
    else MoveStep.sends s (some task) updates (Request.patches id updates none)

-- The answer to a move or a resize, with the undo's message and the one of an unknown failure.
abbrev pub event_answered :
    Text
    → Text
    → Option ScheduledTask
    → UpdateScheduledTaskInput
    → Reply ScheduledTask
    → Screen
    → Screen
event_answered message fallback task updates (Reply.answered row) s =
    reload_tasks (offer_undo (undo_of task updates UpdateScope.single message) s)
event_answered message fallback task updates (Reply.refused error) s = record (sent_back s) {
  form_error = some (message_or fallback error);
}

unfoldable pub handle_event_drop_answered :
    Option ScheduledTask → UpdateScheduledTaskInput → Reply ScheduledTask → Screen → Screen
unfolding reload_tasks
handle_event_drop_answered = event_answered (codes "Task moved.") (codes "Unable to move task")

unfoldable pub handle_event_resize_answered :
    Option ScheduledTask → UpdateScheduledTaskInput → Reply ScheduledTask → Screen → Screen
unfolding reload_tasks
handle_event_resize_answered =
    event_answered (codes "Task resized.") (codes "Unable to resize task")

unfoldable pub handle_external_drop_answered :
    ScheduledTask → UpdateScheduledTaskInput → Reply ScheduledTask → Screen → Screen
unfolding replace_task_in_state reload_tasks
handle_external_drop_answered task updates (Reply.answered row) s =
    let offered =
      offer_undo (undo_of (some task) updates UpdateScope.single (codes "Task moved.")) s in
    reload_tasks (record offered { store = replace_task_in_state offered.store row })
handle_external_drop_answered task updates (Reply.refused error) s = record s {
  form_error = some (message_or (codes "Unable to schedule task") error);
}

module _ (p : Platform) (timezone : Text) (is_mobile_layout : Bool) where
  abbrev event_step : Text → CalendarEvent → Option ScheduledTask → Screen → Option MoveStep
  event_step id event schedule_task s =
      if is_mobile_layout then some (MoveStep.ends (sent_back s)) else (do
        updates ← get_calendar_event_schedule_update p event schedule_task timezone
        some (move_step id (find s id) updates true (clear_undo_state s)))

  unfoldable pub handle_event_drop : Text → CalendarEvent → Screen → Option MoveStep
  unfolding clear_undo_state
  handle_event_drop id event s = event_step id event (find s id) s

  -- A resize keeps the due date.
  unfoldable pub handle_event_resize : Text → CalendarEvent → Screen → Option MoveStep
  unfolding clear_undo_state
  handle_event_resize id event s = event_step id event none s

  abbrev drop_step : ℤ → Bool → Option ScheduledTask → Screen → Option MoveStep
  drop_step date all_day none s = some (MoveStep.ends s)
  drop_step date all_day (some task) s = do
    updates ← get_calendar_drop_schedule_update p task date all_day timezone
    some (move_step task.id (some task) updates false s)

  unfoldable pub handle_external_task_drop : Text → ℤ → Bool → Screen → Option MoveStep
  handle_external_task_drop id date all_day s =
      if is_mobile_layout then some (MoveStep.ends s) else drop_step date all_day (find s id) s
