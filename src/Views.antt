-- ===== src/Views.antt =====
-- The task lists of the sidebar, frontend/src/App.tsx: which tasks a view shows, the visibility of
-- categories, and one row for each recurring series. `none` is an exception: the key of a date
-- that is not valid.
pub mod Categories
pub mod Series
pub mod Filtering
use task_calendar.Base.{
  ℕ, ◌+◌, Bool, true, false, not, ◌&&◌, ◌||◌, Option, none, some, List, [], ◌∷◌, ◌++◌, map, filter,
  all, any, length, or_else, ◌==◌, if◌then◌else◌,
}
use task_calendar.Base.Ids.{contains, map_get}
use task_calendar.Base.Int.{ℤ, ltb_ℤ}
use task_calendar.Base.Text.{Text, text_eq, is_empty, truthy}
use task_calendar.Clock.{◌>>=◌}
use task_calendar.Clock.Keys.{
  date_lt, is_same_local_day, is_before_local_day, is_within_upcoming_days,
}
use task_calendar.Platform.{Platform}
use task_calendar.Task.{ScheduledTask}

pub data TaskView : Type 0 where
  today upcoming unscheduled overdue completed all_tasks : TaskView

pub record TaskList : Type 0 where
  pub id : Text
  pub user_id : Text
  pub name : Text
  pub color : Text
  pub google_sync_enabled : Bool
  pub created_at : Text
  pub updated_at : Text

-- `Record<string, boolean>` as its entries; a key stands once in it.
pub record CategoryVisibilityState : Type 0 where
  pub uncategorized : Bool
  pub lists : List (Text × Bool)

-- `lists[id]`; `lists[id] = b`
unfoldable pub lookup : List (Text × Bool) → Text → Option Bool
lookup [] id = none
lookup ((j, b) ∷ m) id = if text_eq j id then some b else lookup m id

unfoldable pub put : Text → Bool → List (Text × Bool) → List (Text × Bool)
put id b [] = (id, b) ∷ []
put id b ((j, c) ∷ m) = if text_eq j id then (id, b) ∷ m else (j, c) ∷ put id b m

-- `Object.fromEntries(entries)`, from the entries already there.
unfoldable pub from_entries : List (Text × Bool) → List (Text × Bool) → List (Text × Bool)
unfolding put
from_entries m [] = m
from_entries m ((id, b) ∷ entries) = from_entries (put id b m) entries

unfoldable pub create_default_category_visibility : List TaskList → CategoryVisibilityState
unfolding from_entries
create_default_category_visibility task_lists = record {
  uncategorized = true;
  lists = from_entries [] (map (λ l. (l.id, true)) task_lists);
}

abbrev pub shown : List (Text × Bool) → Text → Bool
shown lists id = or_else (lookup lists id) true

abbrev same_entry : Option Bool → Option Bool → Bool
same_entry (some true) (some true) = true
same_entry (some false) (some false) = true
same_entry none none = true
same_entry _ _ = false

unfoldable pub reconcile_category_visibility :
    CategoryVisibilityState → List TaskList → CategoryVisibilityState
unfolding from_entries lookup
reconcile_category_visibility visibility task_lists =
    let ids = map (λ l. l.id) task_lists in
    let lists = from_entries [] (map (λ l. (l.id, shown visibility.lists l.id)) task_lists) in
    if (length visibility.lists == length task_lists)
      && all (λ e. contains ids e.0) visibility.lists
      && all (λ l. same_entry (lookup visibility.lists l.id) (lookup lists l.id)) task_lists
    then visibility
    else record { uncategorized = visibility.uncategorized; lists = lists }

abbrev list_shown : Option Text → CategoryVisibilityState → Bool
list_shown none visibility = visibility.uncategorized
list_shown (some id) visibility =
    if is_empty id then visibility.uncategorized else shown visibility.lists id

unfoldable pub is_task_visible_for_category : ScheduledTask → Bool → CategoryVisibilityState → Bool
unfolding lookup
is_task_visible_for_category task are_all_categories_visible visibility =
    if are_all_categories_visible then true else list_shown task.list_id visibility

-- The state of the category filter, and the handlers of its menu.
pub record CategoryFilter : Type 0 where
  pub all_visible : Bool
  pub visibility : CategoryVisibilityState
  pub previous : Option CategoryVisibilityState

unfoldable pub toggle_all_categories : CategoryFilter → List TaskList → CategoryFilter
unfolding create_default_category_visibility
toggle_all_categories f task_lists =
    if f.all_visible
    then record f {
      all_visible = false;
      visibility = or_else f.previous (create_default_category_visibility task_lists);
    }
    else record {
      all_visible = true;
      visibility = create_default_category_visibility task_lists;
      previous = some f.visibility;
    }

unfoldable pub toggle_uncategorized : CategoryFilter → CategoryFilter
toggle_uncategorized f = if f.all_visible then f else record f {
  visibility = record {
    uncategorized = not f.visibility.uncategorized;
    lists = f.visibility.lists;
  };
}

unfoldable pub toggle_task_list_visibility : CategoryFilter → Text → CategoryFilter
unfolding lookup put
toggle_task_list_visibility f id = if f.all_visible then f else record f {
  visibility = record {
    uncategorized = f.visibility.uncategorized;
    lists = put id (not (shown f.visibility.lists id)) f.visibility.lists;
  };
}

-- The loop of `collapseRecurringTasksForList`; `seen` is `seenSeries`.
unfoldable pub collapse_from : List Text → List ScheduledTask → List ScheduledTask
collapse_from seen [] = []
collapse_from seen (task ∷ tasks) =
    if not (truthy task.recurrence_series_id)
    then task ∷ collapse_from seen tasks
    else if contains seen (or_else task.recurrence_series_id [])
    then collapse_from seen tasks
    else task ∷ collapse_from (or_else task.recurrence_series_id [] ∷ seen) tasks

unfoldable pub collapse_recurring_tasks_for_list : List ScheduledTask → List ScheduledTask
unfolding collapse_from
collapse_recurring_tasks_for_list tasks = collapse_from [] tasks

-- `a ?? b`
abbrev pub task_date_text : ScheduledTask → Option Text
task_date_text task = elim task.scheduled_start [ none ↦ task.due_at | some s ↦ some s ]

module _ (p : Platform) (now : ℤ) (timezone : Text) where
  abbrev pub parse : Option Text → Option ℤ
  parse none = none
  parse (some s) = p.parse_date s

  unfoldable pub is_overdue_task : ScheduledTask → Option Bool
  is_overdue_task task =
      if task.completed
      then some false
      else if task.all_day && truthy task.scheduled_start
      then is_before_local_day p (parse task.scheduled_start) (some now) timezone
      else if truthy task.scheduled_end
      then some (date_lt (parse task.scheduled_end) (some now))
      else if truthy task.due_at
      then some (date_lt (parse task.due_at) (some now))
      else some false

  -- `isSameLocalDay(…) || isOverdueTask(…)`: the second is not called if the first holds.
  abbrev or_overdue : ScheduledTask → Bool → Option Bool
  or_overdue task true = some true
  or_overdue task false = is_overdue_task task

  abbrev shown_today : ScheduledTask → Option Bool
  shown_today task =
      if truthy (task_date_text task)
      then (is_same_local_day p (parse (task_date_text task)) (some now) timezone
          >>= or_overdue task)
      else some false

  abbrev shown_upcoming : ℕ → ScheduledTask → Option Bool
  shown_upcoming upcoming_days task =
      if truthy (task_date_text task)
      then is_within_upcoming_days p (parse (task_date_text task)) (some now) upcoming_days timezone
      else some false

  -- Past the category and the four views that return first, a completed task is shown only on
  -- demand.
  unfoldable pub shown_in_view : TaskView → ℕ → Bool → ScheduledTask → Option Bool
  unfolding is_overdue_task
  shown_in_view TaskView.unscheduled days show_completed task = some (
      not task.completed
      && not (truthy task.scheduled_start)
      && not (truthy task.scheduled_end)
      && not (truthy task.due_at))
  shown_in_view TaskView.all_tasks days show_completed task = some true
  shown_in_view TaskView.completed days show_completed task = some task.completed
  shown_in_view TaskView.overdue days show_completed task = is_overdue_task task
  shown_in_view TaskView.today days show_completed task =
      if task.completed && not show_completed then some false else shown_today task
  shown_in_view TaskView.upcoming days show_completed task =
      if task.completed && not show_completed then some false else shown_upcoming days task

  module _ (all_visible : Bool) (visibility : CategoryVisibilityState) where
    unfoldable pub task_shown : TaskView → ℕ → Bool → ScheduledTask → Option Bool
    unfolding shown_in_view is_task_visible_for_category
    task_shown view days show_completed task =
        if is_task_visible_for_category task all_visible visibility
        then shown_in_view view days show_completed task
        else some false

    -- `tasks.filter(…)` with a test that may throw.
    unfoldable pub filter_shown :
        TaskView → ℕ → Bool → List ScheduledTask → Option (List ScheduledTask)
    unfolding task_shown
    filter_shown view days show_completed [] = some []
    filter_shown view days show_completed (task ∷ tasks) = do
      keep ← task_shown view days show_completed task
      rest ← filter_shown view days show_completed tasks
      some (if keep then task ∷ rest else rest)

    unfoldable pub filter_tasks_for_view :
        List ScheduledTask → TaskView → ℕ → Bool → Option (List ScheduledTask)
    unfolding filter_shown collapse_recurring_tasks_for_list
    filter_tasks_for_view tasks view days show_completed = do
      shown_tasks ← filter_shown view days show_completed tasks
      some (collapse_recurring_tasks_for_list shown_tasks)

  -- `calendarTasks`: what the calendar itself shows.
  unfoldable pub calendar_tasks :
      Bool → CategoryVisibilityState → Bool → List ScheduledTask → List ScheduledTask
  unfolding is_task_visible_for_category
  calendar_tasks all_visible visibility show_completed tasks =
      filter
        (λ task.
          is_task_visible_for_category task all_visible visibility
          && (show_completed || not task.completed))
        tasks
