-- ===== src/Store/Refresh.antt =====
-- What the user sees after a refresh, and that no change is lost to a late answer.
use task_calendar.Base.{Bool, true, false, some, List, if◌then◌else◌, ◌≡◌, refl, ◌∙◌, ap}
use task_calendar.Base.Ids.{distinct}
use task_calendar.Base.Ids.Laws.{text_eq_refl}
use task_calendar.Base.Maps.{entry, set_entry, keys_of}
use task_calendar.Base.Maps.Laws.{entry-set_entry, distinct-set_entry}
use task_calendar.Base.Text.{Text}
use task_calendar.Platform.{Platform}
use task_calendar.Store.{
  Store, ListAnswer, find_task, is_task_at_least_as_fresh, merge_locally_updated_tasks,
  replace_task_in_state, end_refresh,
}
use task_calendar.Task.{ScheduledTask}
use task_calendar.Store.Merging.{
  IsKeyed, newest, pending, find_task-merge_from, entry-merge_from, IsKeyed-set_entry, change_wins,
  merge_from-IsKeyed,
}

-- The map of local changes is one: each entry stands under its task's identifier, and once.
pub record IsSound (store : Store) : Type 0 where
  pub keyed : IsKeyed store.local
  pub once : distinct (keys_of store.local) ≡ true

-- After a refresh whose request has answered with tasks, each task is shown as the newer of the
-- server's row and the user's change, where the times of their last change decide and the row wins
-- a tie; a change stays in memory just until a row is as new. This holds of a sound store.
pub end_refresh-newest :
    (p : Platform) (silent : Bool) (store : Store) (tasks : List ScheduledTask) (id : Text)
    → IsSound store
    → (find_task (end_refresh p silent store (ListAnswer.loaded tasks)).state.tasks id
        ≡ newest p (find_task tasks id) (entry store.local id))
      × (entry (end_refresh p silent store (ListAnswer.loaded tasks)).local id
          ≡ pending p (find_task tasks id) (entry store.local id))
unfolding end_refresh merge_locally_updated_tasks
end_refresh-newest p silent store tasks id s = (
  find_task-merge_from p tasks store.local id s.keyed s.once,
  entry-merge_from p tasks store.local id s.keyed s.once,
)

replace_task-IsSound :
    (store : Store) (updated : ScheduledTask)
    → IsSound store
    → IsSound (replace_task_in_state store updated)
unfolding replace_task_in_state
replace_task-IsSound store updated s = record {
  keyed = IsKeyed-set_entry updated store.local s.keyed;
  once = distinct-set_entry updated.id updated store.local s.once;
}

-- A change of a task that has been put in memory outlives a refresh that answers with an older row
-- of the task, or without one: the list shows the change, and it stays in memory.
pub replace_task-survives :
    (p : Platform) (silent : Bool) (store : Store) (updated : ScheduledTask)
    (tasks : List ScheduledTask)
    → IsSound store
    → ((row : ScheduledTask)
        → find_task tasks updated.id ≡ some row
        → is_task_at_least_as_fresh p row updated ≡ false)
    → (let after =
          end_refresh p silent (replace_task_in_state store updated) (ListAnswer.loaded tasks) in
        (find_task after.state.tasks updated.id ≡ some updated)
        × (entry after.local updated.id ≡ some updated))
unfolding replace_task_in_state
replace_task-survives p silent store updated tasks s older =
    let (shown, kept) =
      end_refresh-newest p silent (replace_task_in_state store updated) tasks updated.id
        (replace_task-IsSound store updated s) in
    let at : entry (set_entry updated.id updated store.local) updated.id ≡ some updated =
      entry-set_entry updated.id updated store.local updated.id
      ∙ ap (λ b. if b then some updated else entry store.local updated.id)
          (text_eq_refl updated.id) in
    let (newer, waits) = change_wins p updated (find_task tasks updated.id) older in
    (
      shown ∙ (ap (newest p (find_task tasks updated.id)) at ∙ newer),
      kept ∙ (ap (pending p (find_task tasks updated.id)) at ∙ waits),
    )

-- The map of local changes stays sound when a task is put in memory and when a refresh ends,
-- whatever the request has answered.
pub store-IsSound :
    (p : Platform) (silent : Bool) (store : Store) (updated : ScheduledTask) (answer : ListAnswer)
    → IsSound store
    → IsSound (replace_task_in_state store updated) × IsSound (end_refresh p silent store answer)
unfolding end_refresh merge_locally_updated_tasks distinct
store-IsSound p silent store updated (ListAnswer.loaded tasks) s =
    let (keyed, once) = merge_from-IsKeyed p tasks store.local s.keyed s.once in
    (replace_task-IsSound store updated s, record { keyed = keyed; once = once })
store-IsSound p silent store updated ListAnswer.expired s =
    (replace_task-IsSound store updated s, record { keyed = tt; once = refl })
store-IsSound p true store updated (ListAnswer.failed message) s =
    (replace_task-IsSound store updated s, s)
store-IsSound p false store updated (ListAnswer.failed message) s =
    (replace_task-IsSound store updated s, record { keyed = s.keyed; once = s.once })
