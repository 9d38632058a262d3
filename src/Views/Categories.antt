-- ===== src/Views/Categories.antt =====
-- The visibility of categories: reconciled with the categories, and switched in the menu.
use task_calendar.Base.{
  Bool, true, false, not, ◌&&◌, none, some, List, [], ◌∷◌, map, all, or_else, if◌then◌else◌, ◌≡◌,
  refl, arith,
}
use task_calendar.Base.Ids.{contains}
use task_calendar.Base.Text.{Text, text_eq, text_eq_iff, is_empty}
use task_calendar.Task.{ScheduledTask}
use task_calendar.Views.{
  TaskList, CategoryVisibilityState, lookup, put, from_entries, shown, same_entry,
  reconcile_category_visibility, is_task_visible_for_category, CategoryFilter,
  toggle_all_categories, toggle_task_list_visibility,
}

lookup-put :
    (id j : Text) (b : Bool) (m : List (Text × Bool))
    → lookup (put id b m) j ≡ (if text_eq id j then some b else lookup m j)
unfolding lookup put
lookup-put id j b [] = refl
lookup-put id j b ((i, c) ∷ m) =
    ground (arith, text_eq_iff id j, text_eq_iff i id, text_eq_iff i j, lookup-put id j b m)

abbrev pub list_ids : List TaskList → List Text
list_ids = map (λ l. l.id)

lookup-from_entries :
    (g : Text → Bool) (m : List (Text × Bool)) (task_lists : List TaskList) (id : Text)
    → lookup (from_entries m (map (λ l. (l.id, g l.id)) task_lists)) id
      ≡ (if contains (list_ids task_lists) id then some (g id) else lookup m id)
unfolding from_entries contains
lookup-from_entries g m [] id = refl
lookup-from_entries g m (l ∷ ls) id = ground (
  arith,
  lookup-from_entries g (put l.id (g l.id) m) ls id,
  lookup-put l.id id (g l.id) m,
  text_eq_iff l.id id,
)

lookup_absent :
    (ids : List Text) (m : List (Text × Bool)) (id : Text)
    → all (λ e. contains ids e.0) m ≡ true
    → contains ids id ≡ false
    → lookup m id ≡ none
unfolding lookup
lookup_absent ids [] id h c = refl
lookup_absent ids ((j, b) ∷ m) id h c = ground (arith, text_eq_iff j id, lookup_absent ids m id)

all_same :
    (u v : List (Text × Bool)) (task_lists : List TaskList) (id : Text)
    → all (λ l. same_entry (lookup u l.id) (lookup v l.id)) task_lists ≡ true
    → contains (list_ids task_lists) id ≡ true
    → lookup u id ≡ lookup v id
unfolding contains
all_same u v [] id h c = cc
all_same u v (l ∷ ls) id h c = ground (arith, text_eq_iff l.id id, all_same u v ls id)

-- After the categories have changed, each of them is as visible as before, a new one is visible,
-- no other has an entry, and the tasks without a category are as visible as before.
pub reconcile-lookup :
    (v : CategoryVisibilityState) (task_lists : List TaskList) (id : Text)
    → (lookup (reconcile_category_visibility v task_lists).lists id
        ≡ (if contains (list_ids task_lists) id then some (shown v.lists id) else none))
      × ((reconcile_category_visibility v task_lists).uncategorized ≡ v.uncategorized)
unfolding reconcile_category_visibility
reconcile-lookup v task_lists id = ground (
  arith,
  lookup-from_entries (shown v.lists) [] task_lists id,
  lookup_absent (list_ids task_lists) v.lists id,
  all_same v.lists (from_entries [] (map (λ l. (l.id, shown v.lists l.id)) task_lists)) task_lists
      id,
)

-- Whether the task is in the category with this identifier.
abbrev pub in_list : ScheduledTask → Text → Bool
in_list task id = elim task.list_id [ none ↦ false | some l ↦ not (is_empty l) && text_eq id l ]

-- Outside the mode that shows all, switching a category turns the visibility of its tasks over,
-- and leaves that of all other tasks.
pub visible-toggle :
    (f : CategoryFilter) (id : Text) (task : ScheduledTask)
    → f.all_visible ≡ false
    → is_task_visible_for_category task
        (toggle_task_list_visibility f id).all_visible
        (toggle_task_list_visibility f id).visibility
      ≡ (if in_list task id
          then not (is_task_visible_for_category task f.all_visible f.visibility)
          else is_task_visible_for_category task f.all_visible f.visibility)
unfolding is_task_visible_for_category toggle_task_list_visibility
visible-toggle f id task h =
    let id' : Text = or_else task.list_id [] in
    ground (
      arith,
      lookup-put id id' (not (shown f.visibility.lists id)) f.visibility.lists,
      text_eq_iff id id',
    )

-- Switching to all categories and back returns to the visibility chosen before, and in between
-- every task is visible.
pub toggle_all_twice :
    (f : CategoryFilter) (task_lists : List TaskList)
    → f.all_visible ≡ false
    → ((toggle_all_categories (toggle_all_categories f task_lists) task_lists).visibility
        ≡ f.visibility)
      × ((toggle_all_categories (toggle_all_categories f task_lists) task_lists).all_visible
          ≡ false)
      × ((task : ScheduledTask)
          → is_task_visible_for_category task
              (toggle_all_categories f task_lists).all_visible
              (toggle_all_categories f task_lists).visibility
            ≡ true)
unfolding toggle_all_categories is_task_visible_for_category
toggle_all_twice f task_lists h = (ground arith, ground arith, λ task. ground arith)
