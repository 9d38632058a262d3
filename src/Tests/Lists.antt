-- ===== src/Tests/Lists.antt =====
-- Views, categories and series at concrete tasks.
use task_calendar.Base.{
  ℕ, true, false, not, none, some, List, [], ◌∷◌, ◌≡◌, refl, filter, All, if◌then◌else◌,
}
use task_calendar.Base.Ids.{distinct}
use task_calendar.Base.Int.{pos}
use task_calendar.Base.Text.{Text, codes}
use task_calendar.Task.{ScheduledTask}
use task_calendar.Tests.Data.{milk, bread, gym, browser}
use task_calendar.Views.{
  TaskView, TaskList, CategoryVisibilityState, CategoryFilter, is_task_visible_for_category,
  toggle_all_categories, toggle_task_list_visibility, collapse_recurring_tasks_for_list,
  collapse_from, filter_tasks_for_view, filter_shown, task_shown, shown_in_view,
}
use task_calendar.Views.Categories.{visible-toggle, toggle_all_twice, in_list}
use task_calendar.Views.Series.{collapse_lem, all_series, first_of_series, in_series}
use task_calendar.Views.Filtering.{filter_tasks-open}

abbrev home : TaskList
home = record {
  id = codes "home";
  user_id = codes "u";
  name = codes "Home";
  color = codes "#ff0000";
  google_sync_enabled = false;
  created_at = codes "2026-01-01T00:00:00.000Z";
  updated_at = codes "2026-01-01T00:00:00.000Z";
}

abbrev work : TaskList
work = record home { id = codes "work"; name = codes "Work" }

abbrev home_hidden : CategoryVisibilityState
home_hidden = record { uncategorized = true; lists = (codes "home", false) ∷ [] }

abbrev chosen : CategoryFilter
chosen = record { all_visible = false; visibility = home_hidden; previous = none }

visible-toggle_example :
    is_task_visible_for_category milk
      (toggle_task_list_visibility chosen (codes "home")).all_visible
      (toggle_task_list_visibility chosen (codes "home")).visibility
    ≡ (if in_list milk (codes "home")
        then not (is_task_visible_for_category milk false home_hidden)
        else is_task_visible_for_category milk false home_hidden)
visible-toggle_example = visible-toggle chosen (codes "home") milk refl

toggle_all_twice_example :
    ((toggle_all_categories (toggle_all_categories chosen (home ∷ [])) (home ∷ [])).visibility
      ≡ home_hidden)
    × ((toggle_all_categories (toggle_all_categories chosen (home ∷ [])) (home ∷ [])).all_visible
        ≡ false)
    × ((task : ScheduledTask)
        → is_task_visible_for_category task
            (toggle_all_categories chosen (home ∷ [])).all_visible
            (toggle_all_categories chosen (home ∷ [])).visibility
          ≡ true)
toggle_all_twice_example = toggle_all_twice chosen (home ∷ []) refl

abbrev two_gyms : List ScheduledTask
two_gyms = gym ∷ milk ∷ record gym { id = codes "d" } ∷ []

collapse_example :
    (distinct (all_series (collapse_recurring_tasks_for_list two_gyms)) ≡ true)
    × ((s : Text)
        → first_of_series s (collapse_recurring_tasks_for_list two_gyms)
          ≡ first_of_series s two_gyms)
    × (filter (λ t. not (in_series t)) (collapse_recurring_tasks_for_list two_gyms)
        ≡ filter (λ t. not (in_series t)) two_gyms)
collapse_example = collapse_lem two_gyms

abbrev listed : List ScheduledTask
listed = milk ∷ gym ∷ record bread { completed = true } ∷ []

unscheduled_list :
    filter_tasks_for_view browser
      (pos 0)
      (codes "Europe/Berlin")
      true
      home_hidden
      listed
      TaskView.unscheduled
      7
      false
    ≡ some (milk ∷ [])
unfolding filter_tasks_for_view filter_shown task_shown shown_in_view is_task_visible_for_category
    collapse_recurring_tasks_for_list collapse_from
unscheduled_list = refl

view_number : TaskView → ℕ
view_number TaskView.completed = 1
view_number TaskView.all_tasks = 2
view_number _ = 0

filter_tasks-open_example :
    All
      (λ t. (t.completed ≡ false) × (is_task_visible_for_category t true home_hidden ≡ true))
      (milk ∷ [])
unfolding view_number
filter_tasks-open_example =
    filter_tasks-open browser (pos 0) (codes "Europe/Berlin") true home_hidden listed
      TaskView.unscheduled 7 (λ e. cc) (λ e. cc) unscheduled_list
