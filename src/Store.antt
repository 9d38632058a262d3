-- ===== src/Store.antt =====
-- The tasks in memory, frontend/src/App.tsx: the list that the server sent, kept together with the
-- tasks that the user changed since, which a late answer of the server must not undo.
pub mod Merging
pub mod Refresh
use task_calendar.Base.{
  Bool, true, false, Option, none, some, List, [], ◌∷◌, ◌++◌, map, any, if◌then◌else◌, or_else,
}
use task_calendar.Base.Ids.{map_get}
use task_calendar.Base.Int.{ℤ, leb_ℤ}
use task_calendar.Base.Maps.{entry, set_entry}
use task_calendar.Base.Text.{Text, text_eq}
use task_calendar.Platform.{Platform}
use task_calendar.Task.{ScheduledTask}

pub data TaskStatus : Type 0 where
  loading refreshing ready : TaskStatus
  error : Text → TaskStatus

pub record TaskState : Type 0 where
  pub status : TaskStatus
  pub tasks : List ScheduledTask

-- `taskState` with `locallyUpdatedTasksRef`.
pub record Store : Type 0 where
  pub state : TaskState
  pub local : List (Text × ScheduledTask)

-- `tasks.find((task) => task.id === id)`
unfoldable pub find_task : List ScheduledTask → Text → Option ScheduledTask
find_task [] id = none
find_task (t ∷ tasks) id = if text_eq t.id id then some t else find_task tasks id

-- `tasks[tasks.findIndex((task) => task.id === id)] = new`
unfoldable pub set_task : Text → ScheduledTask → List ScheduledTask → List ScheduledTask
set_task id new [] = []
set_task id new (t ∷ tasks) = if text_eq t.id id then new ∷ tasks else t ∷ set_task id new tasks

abbrev fresh_times : Option ℤ → Option ℤ → Bool
fresh_times none local = false
fresh_times (some loaded) none = true
fresh_times (some loaded) (some local) = leb_ℤ local loaded

module _ (p : Platform) where
  unfoldable pub is_task_at_least_as_fresh : ScheduledTask → ScheduledTask → Bool
  is_task_at_least_as_fresh loaded_task local_task =
      fresh_times (p.parse_date loaded_task.updated_at) (p.parse_date local_task.updated_at)

  -- One round of the loop: the merged tasks, and whether the map keeps its entry.
  abbrev pub merge_round :
      List ScheduledTask → Text → ScheduledTask → Option ScheduledTask → List ScheduledTask × Bool
  merge_round merged id local none = (merged ++ local ∷ [], true)
  merge_round merged id local (some loaded) =
      if is_task_at_least_as_fresh loaded local
      then (merged, false)
      else (set_task id local merged, true)

  abbrev pub keep_entry {ℓ} : {A : Type ℓ} → Bool → A → List A → List A
  keep_entry keep e rest = if keep then e ∷ rest else rest

  -- The loop over the map: the merged tasks, and the entries that it keeps.
  unfoldable pub merge_from :
      List ScheduledTask
      → List (Text × ScheduledTask)
      → List ScheduledTask × List (Text × ScheduledTask)
  unfolding find_task
  merge_from merged [] = (merged, [])
  merge_from merged ((id, local) ∷ entries) =
      let round = merge_round merged id local (find_task merged id) in
      let result = merge_from round.0 entries in (result.0, keep_entry round.1 (id, local) result.1)

  -- `mergeLocallyUpdatedTasks`: the merged tasks, and the map that it leaves.
  unfoldable pub merge_locally_updated_tasks :
      List ScheduledTask
      → List (Text × ScheduledTask)
      → List ScheduledTask × List (Text × ScheduledTask)
  unfolding merge_from
  merge_locally_updated_tasks loaded_tasks local = merge_from loaded_tasks local

unfoldable pub replace_task_in_state : Store → ScheduledTask → Store
unfolding set_entry
replace_task_in_state store updated = record {
  local = set_entry updated.id updated store.local;
  state = record {
    status = store.state.status;
    tasks =
        if any (λ t. text_eq t.id updated.id) store.state.tasks
        then map (λ t. if text_eq t.id updated.id then updated else t) store.state.tasks
        else store.state.tasks ++ updated ∷ [];
  };
}

abbrev set_all : List ScheduledTask → List (Text × ScheduledTask) → List (Text × ScheduledTask)
set_all [] m = m
set_all (t ∷ tasks) m = set_all tasks (set_entry t.id t m)

unfoldable pub replace_tasks_in_state : Store → List ScheduledTask → Store
replace_tasks_in_state store [] = store
replace_tasks_in_state store (u ∷ updated) = record {
  local = set_all (u ∷ updated) store.local;
  state = record {
    status = store.state.status;
    tasks =
        map (λ t. or_else (map_get (map (λ v. (v.id, v)) (u ∷ updated)) t.id) t) store.state.tasks;
  };
}

-- The two halves of `refreshTasks`: before the request, and after its answer.
unfoldable pub begin_refresh : Store → Store
begin_refresh store = record store {
  state = record {
    status = elim store.state.tasks [ [] ↦ TaskStatus.loading | t ∷ tasks ↦ TaskStatus.refreshing ];
    tasks = store.state.tasks;
  };
}

pub data ListAnswer : Type 0 where
  loaded : List ScheduledTask → ListAnswer
  expired : ListAnswer
  failed : Text → ListAnswer

-- The tasks that `resetAppData` leaves when the session has expired.
abbrev pub no_tasks : Store
no_tasks = record { state = record { status = TaskStatus.loading; tasks = [] }; local = [] }

unfoldable pub end_refresh : Platform → Bool → Store → ListAnswer → Store
unfolding merge_locally_updated_tasks
end_refresh p silent store (ListAnswer.loaded tasks) =
    let merged = merge_locally_updated_tasks p tasks store.local in
    record { state = record { status = TaskStatus.ready; tasks = merged.0 }; local = merged.1 }
end_refresh p silent store ListAnswer.expired = no_tasks
end_refresh p silent store (ListAnswer.failed message) = if silent then store else record store {
  state = record { status = TaskStatus.error message; tasks = store.state.tasks };
}
