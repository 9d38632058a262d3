-- ===== src/Forms/Edits.antt =====
-- What an edit saves, frontend/src/App.tsx: the task that `buildTaskUpdates` leads to.
use task_calendar.Base.{ℕ, Bool, true, false, ◌≡◌, sym, refl, Option, some, or_else, arith, ◌==◌}
use task_calendar.Base.Text.{Text, text_eq, option_text_eq, text_eq_iff, option_text_eq_iff}
use task_calendar.Forms.{
  FormValues, form_values, build_task_updates, changed, same_bool, updates_of,
}
use task_calendar.Platform.{Platform}
use task_calendar.Task.{ScheduledTask, UpdateScheduledTaskInput, EditFormState}
use task_calendar.Undo.Restore.{patch}

-- The task with the values of a form.
unfoldable pub edited : ScheduledTask → FormValues → Bool → ScheduledTask
edited task v completed = record task {
  title = v.title;
  list_id = v.list_id;
  notes = v.notes;
  scheduled_start = v.scheduled_start;
  scheduled_end = v.scheduled_end;
  all_day = v.all_day;
  completed = completed;
  recurrence_rule = v.recurrence_rule;
  notification_enabled = v.notification_enabled;
  notification_offset_minutes = v.notification_offset_minutes;
  notification_channel = v.notification_channel;
}

or_else-changed {ℓ} :
    {A : Type ℓ} (same : Bool) (value old : A)
    → ((same ≡ true) → value ≡ old)
    → or_else (changed same value) old ≡ value
or_else-changed true value old h = sym (h refl)
or_else-changed false value old h = refl

same_bool_lem : (a b : Bool) → same_bool a b ≡ true → a ≡ b
same_bool_lem a b h = ground arith

module _ (task : ScheduledTask) (v : FormValues) (completed : Bool) where
  patch-updates_of : patch (updates_of task v completed) task ≡ edited task v completed
  unfolding patch edited
  patch-updates_of i = record task {
    title = by_text v.title task.title i;
    list_id = by_option v.list_id task.list_id i;
    notes = by_option v.notes task.notes i;
    scheduled_start = by_option v.scheduled_start task.scheduled_start i;
    scheduled_end = by_option v.scheduled_end task.scheduled_end i;
    all_day = by_bool v.all_day task.all_day i;
    completed = by_bool completed task.completed i;
    recurrence_rule = by_option v.recurrence_rule task.recurrence_rule i;
    notification_enabled = by_bool v.notification_enabled task.notification_enabled i;
    notification_offset_minutes =
        by_number v.notification_offset_minutes task.notification_offset_minutes i;
    notification_channel = by_option v.notification_channel task.notification_channel i;
  }
    where
      by_text : (a b : Text) → or_else (changed (text_eq a b) a) b ≡ a
      by_text a b = or_else-changed (text_eq a b) a b ((text_eq_iff a b).0)

      by_option : (a b : Option Text) → or_else (changed (option_text_eq a b) a) b ≡ a
      by_option a b = or_else-changed (option_text_eq a b) a b ((option_text_eq_iff a b).0)

      by_bool : (a b : Bool) → or_else (changed (same_bool a b) a) b ≡ a
      by_bool a b = or_else-changed (same_bool a b) a b (same_bool_lem a b)

      by_number : (a b : ℕ) → or_else (changed (a == b) a) b ≡ a
      by_number a b = or_else-changed (a == b) a b (λ h. ground arith)

module _ (p : Platform) (timezone : Text) (task : ScheduledTask) (edit : EditFormState) where
  -- Whenever the form of an edit can be read, so can the updates, and patching the task with them
  -- gives it every value of the form and the box `completed`, and keeps all its other fields.
  pub patch-build_task_updates :
      {v : FormValues}
      → form_values p timezone edit.form ≡ some v
      → (u : UpdateScheduledTaskInput) × (build_task_updates p timezone task edit ≡ some u)
        × (patch u task ≡ edited task v edit.completed)
  unfolding build_task_updates
  patch-build_task_updates {v} h =
      (updates_of task v edit.completed, rw h refl, patch-updates_of task v edit.completed)
