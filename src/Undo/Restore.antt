-- ===== src/Undo/Restore.antt =====
-- What the restoring update holds, and that it takes an update back.
use task_calendar.Base.{
  Bool-cases, inl, inr, ◌≡⟨◌⟩◌, ◌∎, Bool, true, false, ◌≡◌, refl, Option, none, some, List, [], ◌∷◌,
  is_some, filter, or_else, if◌then◌else◌,
}
use task_calendar.Task.{
  ScheduledTask, UpdateScheduledTaskInput, no_update, Field, all_fields, has, keys,
}
use task_calendar.Undo.{
  snapshot_of, assign_task_update_field, assign_all, build_task_update_input_from_snapshot,
}

-- What a PATCH of a task with an update means: each key that is there replaces its field.
unfoldable pub patch : UpdateScheduledTaskInput → ScheduledTask → ScheduledTask
patch u t = record t {
  title = or_else u.title t.title;
  list_id = or_else u.list_id t.list_id;
  notes = or_else u.notes t.notes;
  scheduled_start = or_else u.scheduled_start t.scheduled_start;
  scheduled_end = or_else u.scheduled_end t.scheduled_end;
  all_day = or_else u.all_day t.all_day;
  due_at = or_else u.due_at t.due_at;
  completed = or_else u.completed t.completed;
  unscheduled_order = or_else u.unscheduled_order t.unscheduled_order;
  recurrence_rule = or_else u.recurrence_rule t.recurrence_rule;
  notification_enabled = or_else u.notification_enabled t.notification_enabled;
  notification_offset_minutes = or_else u.notification_offset_minutes t.notification_offset_minutes;
  notification_channel = or_else u.notification_channel t.notification_channel;
}

-- The update with the keys of `u` and the values of the task.
abbrev kept {ℓ κ} : {A : Type ℓ} {B : Type κ} → Option A → B → Option B
kept x b = if is_some x then some b else none

restored : ScheduledTask → UpdateScheduledTaskInput → UpdateScheduledTaskInput
restored t u = record {
  title = kept u.title t.title;
  list_id = kept u.list_id t.list_id;
  notes = kept u.notes t.notes;
  scheduled_start = kept u.scheduled_start t.scheduled_start;
  scheduled_end = kept u.scheduled_end t.scheduled_end;
  all_day = kept u.all_day t.all_day;
  due_at = kept u.due_at t.due_at;
  completed = kept u.completed t.completed;
  unscheduled_order = kept u.unscheduled_order t.unscheduled_order;
  recurrence_rule = kept u.recurrence_rule t.recurrence_rule;
  notification_enabled = kept u.notification_enabled t.notification_enabled;
  notification_offset_minutes = kept u.notification_offset_minutes t.notification_offset_minutes;
  notification_channel = kept u.notification_channel t.notification_channel;
}

-- One round of the loop over a field that is a key when `b` holds.
assign_if :
    Bool → UpdateScheduledTaskInput → UpdateScheduledTaskInput → Field → UpdateScheduledTaskInput
assign_if b u s Field.title = record u { title = if b then s.title else u.title }
assign_if b u s Field.list_id = record u { list_id = if b then s.list_id else u.list_id }
assign_if b u s Field.notes = record u { notes = if b then s.notes else u.notes }
assign_if b u s Field.scheduled_start = record u {
  scheduled_start = if b then s.scheduled_start else u.scheduled_start;
}
assign_if b u s Field.scheduled_end = record u {
  scheduled_end = if b then s.scheduled_end else u.scheduled_end;
}
assign_if b u s Field.all_day = record u { all_day = if b then s.all_day else u.all_day }
assign_if b u s Field.due_at = record u { due_at = if b then s.due_at else u.due_at }
assign_if b u s Field.completed = record u { completed = if b then s.completed else u.completed }
assign_if b u s Field.unscheduled_order = record u {
  unscheduled_order = if b then s.unscheduled_order else u.unscheduled_order;
}
assign_if b u s Field.recurrence_rule = record u {
  recurrence_rule = if b then s.recurrence_rule else u.recurrence_rule;
}
assign_if b u s Field.notification_enabled = record u {
  notification_enabled = if b then s.notification_enabled else u.notification_enabled;
}
assign_if b u s Field.notification_offset_minutes = record u {
  notification_offset_minutes =
      if b then s.notification_offset_minutes else u.notification_offset_minutes;
}
assign_if b u s Field.notification_channel = record u {
  notification_channel = if b then s.notification_channel else u.notification_channel;
}

assign_if-true :
    (u s : UpdateScheduledTaskInput) (f : Field)
    → assign_task_update_field u s f ≡ assign_if true u s f
unfolding assign_if assign_task_update_field
assign_if-true u s Field.title = refl
assign_if-true u s _ = refl

assign_if-false : (u s : UpdateScheduledTaskInput) (f : Field) → u ≡ assign_if false u s f
unfolding assign_if
assign_if-false u s Field.title = refl
assign_if-false u s _ = refl

assign_selected :
    UpdateScheduledTaskInput
    → (Field → Bool)
    → List Field
    → UpdateScheduledTaskInput
    → UpdateScheduledTaskInput
unfolding assign_if
assign_selected s p [] u = u
assign_selected s p (f ∷ fs) u = assign_selected s p fs (assign_if (p f) u s f)

-- The loop over the fields that `p` selects, as one round for each field.
assign_all-filter :
    (s : UpdateScheduledTaskInput) (p : Field → Bool) (fs : List Field)
    (u : UpdateScheduledTaskInput)
    → assign_all s (filter p fs) u ≡ assign_selected s p fs u
unfolding assign_all assign_selected
assign_all-filter s p [] u = refl
assign_all-filter s p (f ∷ fs) u = elim (Bool-cases (p f)) [
  | inl selected ↦ rw (selected, ← assign_if-true) (assign_all-filter s p fs _)
  | inr left_out ↦ rw (left_out, ← assign_if-false) (assign_all-filter s p fs u)
]

assign_selected-restored :
    (t : ScheduledTask) (u : UpdateScheduledTaskInput)
    → assign_selected (snapshot_of t) (has u) all_fields no_update ≡ restored t u
unfolding assign_selected snapshot_of restored
assign_selected-restored t u = refl

build-eq-restored :
    (t : ScheduledTask) (u : UpdateScheduledTaskInput)
    → build_task_update_input_from_snapshot t (some (keys u)) ≡ restored t u
unfolding build_task_update_input_from_snapshot keys
build-eq-restored t u =
    assign_all (snapshot_of t) (filter (has u) all_fields) no_update
    ≡⟨ assign_all-filter (snapshot_of t) (has u) all_fields no_update ⟩
      assign_selected (snapshot_of t) (has u) all_fields no_update
    ≡⟨ assign_selected-restored t u ⟩ restored t u ∎

or_else-kept {ℓ} : {A : Type ℓ} (x : Option A) (a : A) → or_else (kept x a) (or_else x a) ≡ a
or_else-kept none a = refl
or_else-kept (some b) a = refl

-- Patching a task and then patching it with the restoring update of the snapshot taken before
-- gives the task back, whatever the update's keys are.
pub patch-restore :
    (t : ScheduledTask) (u : UpdateScheduledTaskInput)
    → patch (build_task_update_input_from_snapshot t (some (keys u))) (patch u t) ≡ t
unfolding patch
patch-restore t u = rw (build-eq-restored t u) (
    unfold restored in
    λ i. record t {
      title = or_else-kept u.title t.title i;
      list_id = or_else-kept u.list_id t.list_id i;
      notes = or_else-kept u.notes t.notes i;
      scheduled_start = or_else-kept u.scheduled_start t.scheduled_start i;
      scheduled_end = or_else-kept u.scheduled_end t.scheduled_end i;
      all_day = or_else-kept u.all_day t.all_day i;
      due_at = or_else-kept u.due_at t.due_at i;
      completed = or_else-kept u.completed t.completed i;
      unscheduled_order = or_else-kept u.unscheduled_order t.unscheduled_order i;
      recurrence_rule = or_else-kept u.recurrence_rule t.recurrence_rule i;
      notification_enabled = or_else-kept u.notification_enabled t.notification_enabled i;
      notification_offset_minutes =
          or_else-kept u.notification_offset_minutes t.notification_offset_minutes i;
      notification_channel = or_else-kept u.notification_channel t.notification_channel i;
    })

-- The restoring update has exactly the keys of the update that it takes back.
pub has-restore :
    (t : ScheduledTask) (u : UpdateScheduledTaskInput) (f : Field)
    → has (build_task_update_input_from_snapshot t (some (keys u))) f ≡ has u f
unfolding restored
has-restore t u f = rw (build-eq-restored t u) (kept_keys f)
  where
    is_some-kept : {A B : Type 0} (x : Option A) (b : B) → is_some (kept x b) ≡ is_some x
    is_some-kept none b = refl
    is_some-kept (some a) b = refl

    kept_keys : (g : Field) → has (restored t u) g ≡ has u g
    kept_keys Field.title = is_some-kept u.title t.title
    kept_keys Field.list_id = is_some-kept u.list_id t.list_id
    kept_keys Field.notes = is_some-kept u.notes t.notes
    kept_keys Field.scheduled_start = is_some-kept u.scheduled_start t.scheduled_start
    kept_keys Field.scheduled_end = is_some-kept u.scheduled_end t.scheduled_end
    kept_keys Field.all_day = is_some-kept u.all_day t.all_day
    kept_keys Field.due_at = is_some-kept u.due_at t.due_at
    kept_keys Field.completed = is_some-kept u.completed t.completed
    kept_keys Field.unscheduled_order = is_some-kept u.unscheduled_order t.unscheduled_order
    kept_keys Field.recurrence_rule = is_some-kept u.recurrence_rule t.recurrence_rule
    kept_keys Field.notification_enabled =
        is_some-kept u.notification_enabled t.notification_enabled
    kept_keys Field.notification_offset_minutes =
        is_some-kept u.notification_offset_minutes t.notification_offset_minutes
    kept_keys Field.notification_channel =
        is_some-kept u.notification_channel t.notification_channel
