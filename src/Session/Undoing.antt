-- ===== src/Session/Undoing.antt =====
-- From a change of a task to its undo: what the undo that the screen offers asks of the server.
use task_calendar.Base.{false, not, ◌&&◌, Option, none, some, ◌≡◌, refl, ◌∙◌, arith}
use task_calendar.Base.Text.{Text, codes, truthy}
use task_calendar.Session.{
  Screen, EditSource, Request, Reply, find, close_detail_panel, reload_tasks, show_task_undo,
  offer_undo, PendingTaskEdit,
}
use task_calendar.Session.Updates.{
  UpdateRun, run_task_update, run_task_update_answered, closed, handle_checkbox_answered,
}
use task_calendar.Session.Moves.{
  event_answered, handle_event_drop_answered, handle_event_resize_answered,
  handle_external_drop_answered,
}
use task_calendar.Session.Removals.{undo_request}
use task_calendar.Task.{ScheduledTask, UpdateScheduledTaskInput, keys, no_update}
use task_calendar.Undo.{
  UndoKind, TaskUndoState, UpdateScope, build_update_task_undo,
  build_task_update_input_from_snapshot, has_recurring_detach_update,
}
use task_calendar.Undo.Restore.{patch, patch-restore}

-- What it means that a screen offers to take back the update `u` of the task `t`: the undo asks for
-- a patch of that task which restores each of its fields.
abbrev pub Restores : Screen → ScheduledTask → UpdateScheduledTaskInput → Type 0
Restores s t u =
    (undo : TaskUndoState) × (input : UpdateScheduledTaskInput) × (s.undo ≡ some undo)
    × (undo_request undo ≡ some (Request.patches t.id input none))
    × (patch input (patch u t) ≡ t)

build_update-request :
    (t : ScheduledTask) (u : UpdateScheduledTaskInput) (message : Text)
    → u.recurrence_rule ≡ none
    → (truthy t.recurrence_series_id && has_recurring_detach_update u) ≡ false
    → (undo : TaskUndoState) × (build_update_task_undo t u UpdateScope.single message ≡ some undo)
      × (undo_request undo
          ≡ some
              (Request.patches t.id (build_task_update_input_from_snapshot t (some (keys u))) none))
unfolding build_update_task_undo undo_request
build_update-request t u message r d = (
  record {
    message = message;
    task = some t;
    kind = UndoKind.update;
    restore_fields = some (keys u);
    update_scope = none;
  },
  ground arith,
  refl,
)

-- What each of the four handlers leaves as the offered undo.
offered :
    (t : ScheduledTask) (u : UpdateScheduledTaskInput) (message : Text) (s : Screen)
    → u.recurrence_rule ≡ none
    → (truthy t.recurrence_series_id && has_recurring_detach_update u) ≡ false
    → s.undo ≡ build_update_task_undo t u UpdateScope.single message
    → Restores s t u
offered t u message s r d e =
    let (undo, made, asks) = build_update-request t u message r d in
    (
      undo,
      build_task_update_input_from_snapshot t (some (keys u)),
      e ∙ made,
      asks,
      patch-restore t u,
    )

offer_undo-undo :
    (t : ScheduledTask) (u : UpdateScheduledTaskInput) (message : Text) (s : Screen)
    → u.recurrence_rule ≡ none
    → (truthy t.recurrence_series_id && has_recurring_detach_update u) ≡ false
    → (offer_undo (build_update_task_undo t u UpdateScope.single message) s).undo
      ≡ build_update_task_undo t u UpdateScope.single message
unfolding show_task_undo
offer_undo-undo t u message s r d =
    let (undo, made, asks) = build_update-request t u message r d in rw made refl

closed-undo :
    (source : EditSource) (closure : Option PendingTaskEdit) (s : Screen)
    → (closed source closure s).undo ≡ s.undo
unfolding close_detail_panel
closed-undo EditSource.calendar closure s = refl
closed-undo EditSource.form none s = refl
closed-undo EditSource.form (some pending) s = ground arith

module _ (t row : ScheduledTask) (u : UpdateScheduledTaskInput) (later : Screen)
    (r : u.recurrence_rule ≡ none)
    (d : (truthy t.recurrence_series_id && has_recurring_detach_update u) ≡ false) where
  abbrev edit_run : Text → EditSource → Option PendingTaskEdit → UpdateRun
  edit_run id source closure = record {
    task_id = id;
    updates = u;
    update_scope = UpdateScope.single;
    source = source;
    previous_task = some t;
    closure = closure;
  }

  event-Restores :
      (message fallback : Text)
      → Restores (event_answered message fallback (some t) u (Reply.answered row) later) t u
  unfolding reload_tasks
  event-Restores message fallback =
      offered t u message (event_answered message fallback (some t) u (Reply.answered row) later) r
        d (offer_undo-undo t u message later r d)

  drop-Restores : Restores (handle_external_drop_answered t u (Reply.answered row) later) t u
  unfolding handle_external_drop_answered reload_tasks
  drop-Restores =
      offered t u (codes "Task moved.")
        (handle_external_drop_answered t u (Reply.answered row) later) r d
        (offer_undo-undo t u (codes "Task moved.") later r d)

  edit-Restores :
      (id : Text) (source : EditSource) (closure : Option PendingTaskEdit)
      → Restores
          (run_task_update_answered (edit_run id source closure) (Reply.answered row) later)
          t
          u
  unfolding run_task_update_answered reload_tasks
  edit-Restores id EditSource.calendar closure =
      offered t u (codes "Task updated.")
        (run_task_update_answered (edit_run id EditSource.calendar closure) (Reply.answered row)
          later)
        r d (offer_undo-undo t u (codes "Task updated.") later r d)
  edit-Restores id EditSource.form closure =
      offered t u (codes "Task updated.")
        (run_task_update_answered (edit_run id EditSource.form closure) (Reply.answered row) later)
        r d
        (closed-undo EditSource.form closure (
            reload_tasks
              (record (offer_undo
                (build_update_task_undo t u UpdateScope.single (codes "Task updated.")) later) {
                  pending_edit = none;
                }))
          ∙ offer_undo-undo t u (codes "Task updated.") later r d)

-- The checkbox asks the server to turn `completed` over, as this update does.
abbrev pub turned : ScheduledTask → UpdateScheduledTaskInput
turned t = record no_update { completed = some (not t.completed) }

checkbox-Restores :
    (t row : ScheduledTask) (later : Screen)
    → Restores (handle_checkbox_answered t (Reply.answered row) later) t (turned t)
unfolding handle_checkbox_answered reload_tasks show_task_undo undo_request keys
checkbox-Restores t row later = (_, _, refl, refl, patch-restore t (turned t))

-- The handlers that wait for the answer to a change of one task offer, once it is there, an undo
-- whose request restores each field of the task as it was found before: an edit, and a move, a
-- resize and a drop in the calendar, by an update that leaves the recurrence rule alone and detaches
-- no task from its series; and the checkbox.
pub changes-Restores :
    (s later : Screen) (id : Text) (t row : ScheduledTask) (u : UpdateScheduledTaskInput)
    (source : EditSource)
    → find s id ≡ some t
    → u.recurrence_rule ≡ none
    → (truthy t.recurrence_series_id && has_recurring_detach_update u) ≡ false
    → Restores
        (run_task_update_answered
          (run_task_update id u UpdateScope.single source s).1
          (Reply.answered row)
          later)
        t
        u
      × Restores (handle_event_drop_answered (find s id) u (Reply.answered row) later) t u
      × Restores (handle_event_resize_answered (find s id) u (Reply.answered row) later) t u
      × Restores (handle_external_drop_answered t u (Reply.answered row) later) t u
      × Restores (handle_checkbox_answered t (Reply.answered row) later) t (turned t)
unfolding run_task_update handle_event_drop_answered handle_event_resize_answered
changes-Restores s later id t row u source found r d = rw found (
  edit-Restores t row u later r d id source s.pending_edit,
  event-Restores t row u later r d (codes "Task moved.") (codes "Unable to move task"),
  event-Restores t row u later r d (codes "Task resized.") (codes "Unable to resize task"),
  drop-Restores t row u later r d,
  checkbox-Restores t row later,
)
