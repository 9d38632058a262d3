-- ===== src/Undo/Offer.antt =====
-- When an undo is offered, and what taking it does.
use task_calendar.Base.{true, false, ◌≡◌, none, some, arith}
use task_calendar.Base.Text.{Text, truthy}
use task_calendar.Task.{ScheduledTask, UpdateScheduledTaskInput}
use task_calendar.Undo.{
  UpdateScope, UndoKind, TaskUndoState, build_task_update_input_from_snapshot,
  build_update_task_undo, has_recurring_detach_update,
}
use task_calendar.Undo.Restore.{patch, patch-restore}

-- What holds of an undo that is offered after the update `u` of the task `t`.
pub record TakesBack (t : ScheduledTask) (u : UpdateScheduledTaskInput) (undo : TaskUndoState)
    : Type 0 where
  pub is_update : undo.kind ≡ UndoKind.update
  pub of_task : undo.task ≡ some t
  pub restores : patch (build_task_update_input_from_snapshot t undo.restore_fields) (patch u t) ≡ t
  pub rule_untouched : u.recurrence_rule ≡ none
  pub series_attached :
      (truthy t.recurrence_series_id ≡ true) → has_recurring_detach_update u ≡ false

-- If an undo is offered after a change, the change is of a single task, does not touch the
-- recurrence rule and detaches no task from its series, and the undo's update puts the task back.
pub offer-TakesBack :
    (t : ScheduledTask) (u : UpdateScheduledTaskInput) (scope : UpdateScope) (message : Text)
    {undo : TaskUndoState}
    → build_update_task_undo t u scope message ≡ some undo
    → (scope ≡ UpdateScope.single) × TakesBack t u undo
unfolding build_update_task_undo
offer-TakesBack t u scope message h = ground (arith, patch-restore t u)
