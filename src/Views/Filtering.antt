-- ===== src/Views/Filtering.antt =====
-- What the views show.
use task_calendar.Base.{
  some_inj, ℕ, Bool, true, false, some, List, [], ◌∷◌, All, All-map, or_else, if◌then◌else◌, ◌≡◌,
  ◌≢◌, refl, ap, ◌∙◌, arith, Option-cases, inl, inr,
}
use mathlib.Core.Path.{subst}
use task_calendar.Base.Int.{ℤ}
use task_calendar.Base.Text.{Text}
use task_calendar.Platform.{Platform}
use task_calendar.Task.{ScheduledTask}
use task_calendar.Views.{
  TaskView, CategoryVisibilityState, is_task_visible_for_category, is_overdue_task, shown_in_view,
  task_shown, filter_shown, filter_tasks_for_view, collapse_from, collapse_recurring_tasks_for_list,
}

collapse_from-All :
    (P : ScheduledTask → Type 0) (seen : List Text) (tasks : List ScheduledTask)
    → All P tasks
    → All P (collapse_from seen tasks)
unfolding collapse_from
collapse_from-All P seen [] h = tt
collapse_from-All P seen (t ∷ ts) (p, h) = ground (
  arith,
  collapse_from-All P seen ts h,
  collapse_from-All P (or_else t.recurrence_series_id [] ∷ seen) ts h,
)

module _ (p : Platform) (now : ℤ) (timezone : Text) where
  -- A completed task is never overdue.
  overdue_open :
      (task : ScheduledTask)
      → is_overdue_task p now timezone task ≡ some true
      → task.completed ≡ false
  unfolding is_overdue_task
  overdue_open task h = ground arith

  shown_in_view-open :
      (view : TaskView) (days : ℕ) (task : ScheduledTask)
      → view ≢ TaskView.completed
      → view ≢ TaskView.all_tasks
      → shown_in_view p now timezone view days false task ≡ some true
      → task.completed ≡ false
  unfolding shown_in_view
  shown_in_view-open TaskView.today days task nc na h = ground arith
  shown_in_view-open TaskView.upcoming days task nc na h = ground arith
  shown_in_view-open TaskView.unscheduled days task nc na h = ground arith
  shown_in_view-open TaskView.overdue days task nc na h = overdue_open task h
  shown_in_view-open TaskView.completed days task nc na h = absurd (nc refl)
  shown_in_view-open TaskView.all_tasks days task nc na h = absurd (na refl)

  module _ (all_visible : Bool) (visibility : CategoryVisibilityState) where
    abbrev pub Tested : TaskView → ℕ → Bool → ScheduledTask → Type 0
    Tested view days show_completed t =
        task_shown p now timezone all_visible visibility view days show_completed t ≡ some true

    kept :
        (P : ScheduledTask → Type 0) (keep : Bool) (t : ScheduledTask) (rest : List ScheduledTask)
        → (keep ≡ true → P t)
        → All P rest
        → All P (if keep then t ∷ rest else rest)
    kept P true t rest h k = (h refl, k)
    kept P false t rest h k = k

    filter_shown-All :
        (view : TaskView) (days : ℕ) (show_completed : Bool) (tasks : List ScheduledTask)
        {result : List ScheduledTask}
        → filter_shown p now timezone all_visible visibility view days show_completed tasks
          ≡ some result
        → All (Tested view days show_completed) result
    unfolding filter_shown
    filter_shown-All view days show_completed [] h =
        subst (All (Tested view days show_completed)) (some_inj h) tt
    filter_shown-All view days show_completed (t ∷ ts) h =
        elim (Option-cases
          (task_shown p now timezone all_visible visibility view days show_completed t)) [
            | inl thrown ↦ absurd (ground (arith, thrown))
            | inr (keep, tested) ↦
                elim (Option-cases (
                  filter_shown p now timezone all_visible visibility view days show_completed ts)) [
                    | inl thrown ↦ absurd (ground (arith, tested, thrown))
                    | inr (rest, filtered) ↦
                        let below = filter_shown-All view days show_completed ts filtered in
                        subst (All (Tested view days show_completed))
                          (some_inj (rw (tested, filtered) at h))
                          (kept (Tested view days show_completed) keep t rest
                            (λ e. tested ∙ ap some e) below)
                  ]
          ]

    -- The tasks that a view hides when completed tasks are not to be shown.
    pub task_shown-open :
        (view : TaskView) (days : ℕ) (task : ScheduledTask)
        → view ≢ TaskView.completed
        → view ≢ TaskView.all_tasks
        → task_shown p now timezone all_visible visibility view days false task ≡ some true
        → task.completed ≡ false
    unfolding task_shown
    task_shown-open view days task nc na h = ground (arith, shown_in_view-open view days task nc na)

    task_shown-visible :
        (view : TaskView) (days : ℕ) (show_completed : Bool) (task : ScheduledTask)
        → task_shown p now timezone all_visible visibility view days show_completed task ≡ some true
        → is_task_visible_for_category task all_visible visibility ≡ true
    unfolding task_shown
    task_shown-visible view days show_completed task h = ground arith

    -- A view shows only tasks that pass its test.
    pub filter_tasks-All :
        (tasks : List ScheduledTask) (view : TaskView) (days : ℕ) (show_completed : Bool)
        {result : List ScheduledTask}
        → filter_tasks_for_view p now timezone all_visible visibility tasks view days show_completed
          ≡ some result
        → All (Tested view days show_completed) result
    unfolding filter_tasks_for_view collapse_recurring_tasks_for_list
    filter_tasks-All tasks view days show_completed h =
        elim (Option-cases
          (filter_shown p now timezone all_visible visibility view days show_completed tasks)) [
            | inl thrown ↦ absurd (ground (arith, thrown))
            | inr (some_tasks, filtered) ↦
                subst (All (Tested view days show_completed)) (some_inj (rw filtered at h)) (
                  collapse_from-All (Tested view days show_completed) [] some_tasks
                    (filter_shown-All view days show_completed tasks filtered))
          ]

    -- Where completed tasks are not to be shown, a view other than those of completed and of all
    -- tasks lists only open tasks, each of a category that is visible.
    pub filter_tasks-open :
        (tasks : List ScheduledTask) (view : TaskView) (days : ℕ) {result : List ScheduledTask}
        → view ≢ TaskView.completed
        → view ≢ TaskView.all_tasks
        → filter_tasks_for_view p now timezone all_visible visibility tasks view days false
          ≡ some result
        → All
            (λ t.
              (t.completed ≡ false)
              × (is_task_visible_for_category t all_visible visibility ≡ true))
            result
    filter_tasks-open tasks view days {result} nc na h =
        All-map
          (λ t k. (task_shown-open view days t nc na k, task_shown-visible view days false t k))
          result (filter_tasks-All tasks view days false h)
