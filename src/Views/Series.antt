-- ===== src/Views/Series.antt =====
-- One row for each recurring series.
use task_calendar.Base.{
  Bool, true, false, not, ◌&&◌, Option, none, some, List, [], ◌∷◌, filter, or_else, if◌then◌else◌,
  ◌≡◌, refl, arith,
}
use task_calendar.Base.Ids.{contains, distinct}
use task_calendar.Base.Text.{Text, text_eq, text_eq_iff, truthy}
use task_calendar.Task.{ScheduledTask}
use task_calendar.Views.{collapse_from, collapse_recurring_tasks_for_list}

abbrev pub in_series : ScheduledTask → Bool
in_series task = truthy task.recurrence_series_id

abbrev pub series_of : ScheduledTask → Text
series_of task = or_else task.recurrence_series_id []

-- The series of the tasks, in order and as often as they occur.
abbrev pub all_series : List ScheduledTask → List Text
all_series [] = []
all_series (t ∷ ts) = if in_series t then series_of t ∷ all_series ts else all_series ts

-- The first task of a series, and a default.
abbrev pub first_of_series : Text → List ScheduledTask → Option ScheduledTask
first_of_series s [] = none
first_of_series s (t ∷ ts) =
    if in_series t && text_eq (series_of t) s then some t else first_of_series s ts

fresh :
    (seen : List Text) (tasks : List ScheduledTask) (s : Text)
    → contains seen s ≡ true
    → contains (all_series (collapse_from seen tasks)) s ≡ false
unfolding collapse_from contains
fresh seen [] s h = refl
fresh seen (t ∷ ts) s h =
    ground (arith, text_eq_iff (series_of t) s, fresh seen ts s, fresh (series_of t ∷ seen) ts s)

distinct-collapse_from :
    (seen : List Text) (tasks : List ScheduledTask)
    → distinct (all_series (collapse_from seen tasks)) ≡ true
unfolding collapse_from distinct contains
distinct-collapse_from seen [] = refl
distinct-collapse_from seen (t ∷ ts) = ground (
  arith,
  text_eq_iff (series_of t) (series_of t),
  fresh (series_of t ∷ seen) ts (series_of t),
  distinct-collapse_from seen ts,
  distinct-collapse_from (series_of t ∷ seen) ts,
)

single-collapse_from :
    (seen : List Text) (tasks : List ScheduledTask)
    → filter (λ t. not (in_series t)) (collapse_from seen tasks)
      ≡ filter (λ t. not (in_series t)) tasks
unfolding collapse_from
single-collapse_from seen [] = refl
single-collapse_from seen (t ∷ ts) =
    ground (arith, single-collapse_from seen ts, single-collapse_from (series_of t ∷ seen) ts)

first-collapse_from :
    (seen : List Text) (tasks : List ScheduledTask) (s : Text)
    → first_of_series s (collapse_from seen tasks)
      ≡ (if contains seen s then none else first_of_series s tasks)
unfolding collapse_from contains
first-collapse_from seen [] s = ground arith
first-collapse_from seen (t ∷ ts) s = ground (
  arith,
  text_eq_iff (series_of t) s,
  first-collapse_from seen ts s,
  first-collapse_from (series_of t ∷ seen) ts s,
)

-- The list shows no series twice, shows of each series the first task, and shows all tasks that
-- are in no series, in their order.
pub collapse_lem :
    (tasks : List ScheduledTask)
    → (distinct (all_series (collapse_recurring_tasks_for_list tasks)) ≡ true)
      × ((s : Text)
          → first_of_series s (collapse_recurring_tasks_for_list tasks) ≡ first_of_series s tasks)
      × (filter (λ t. not (in_series t)) (collapse_recurring_tasks_for_list tasks)
          ≡ filter (λ t. not (in_series t)) tasks)
unfolding collapse_recurring_tasks_for_list contains
collapse_lem tasks = (
  distinct-collapse_from [] tasks,
  λ s. first-collapse_from [] tasks s,
  single-collapse_from [] tasks,
)
