-- ===== src/Categories.antt =====
-- The categories of the sidebar and their editor, frontend/src/App.tsx: a category is created,
-- changed or deleted by a request, and the list of them stays in the order of the names. A handler
-- that waits for an answer is two functions, as in Session.
pub mod Sorting
pub mod Menu
use task_calendar.Base.{
  ℕ, zero, suc, ◌+◌, ◌-◌, Bool, true, false, Option, none, some, List, [], ◌∷◌, ◌++◌, map,
  if◌then◌else◌,
}
use task_calendar.Base.Int.{ℤ, pos, negsuc}
use task_calendar.Base.Text.{Text, codes, is_empty, text_eq, option_text_eq, trim}
use task_calendar.Calendar.Colors.{default_category_color}
use task_calendar.Platform.{Platform}
use task_calendar.Session.{
  Screen, ContextMenu, DeleteSource, Request, Reply, message_or, find, reload_tasks,
}
use task_calendar.Session.Removals.{DeleteRun, prompt_recurring_task_delete, run_task_delete}
use task_calendar.Store.{find_task, no_tasks}
use task_calendar.Task.{ScheduledTask}
use task_calendar.Undo.{DeleteScope}
use task_calendar.Views.{TaskList}

-- The screen with the categories and the fields of their editor; `listing_lists` counts the requests
-- for the categories that wait for an answer.
pub record CategoryScreen : Type 0 where
  pub screen : Screen
  pub task_lists : List TaskList
  pub active_list_id : Option Text
  pub is_category_menu_open : Bool
  pub is_adding_category : Bool
  pub is_delete_category_confirming : Bool
  pub editing_task_list_id : Option Text
  pub new_list_name : Text
  pub new_list_color : Text
  pub editing_list_name : Text
  pub editing_list_color : Text
  pub editing_google_sync_enabled : Bool
  pub listing_lists : ℕ

pub data ListRequest : Type 0 where
  posts : (name color : Text) → ListRequest
  patches : (id name color : Text) → Bool → ListRequest
  deletes : Text → ListRequest

abbrev pub not_after : ℤ → Bool
not_after (pos zero) = true
not_after (pos (suc n)) = false
not_after (negsuc n) = true

module _ (p : Platform) where
  -- `lists.sort((a, b) => a.name.localeCompare(b.name))`, which is stable.
  unfoldable pub insert_list : TaskList → List TaskList → List TaskList
  insert_list a [] = a ∷ []
  insert_list a (b ∷ lists) =
      if not_after (p.locale_compare a.name b.name) then a ∷ b ∷ lists else b ∷ insert_list a lists

  unfoldable pub sort_lists : List TaskList → List TaskList
  unfolding insert_list
  sort_lists [] = []
  sort_lists (a ∷ lists) = insert_list a (sort_lists lists)

abbrev pub with_error : Option Text → CategoryScreen → CategoryScreen
with_error error e = record e { screen = record e.screen { form_error = error } }

unfoldable pub reset_category_editor : CategoryScreen → CategoryScreen
reset_category_editor e = record e {
  is_adding_category = false;
  is_delete_category_confirming = false;
  editing_task_list_id = none;
  new_list_name = [];
  new_list_color = default_category_color;
  editing_list_name = [];
  editing_list_color = default_category_color;
  editing_google_sync_enabled = false;
}

-- `setIsCategoryMenuOpen(false)`, whose effect resets the editor where the menu was open.
unfoldable pub close_category_menu : CategoryScreen → CategoryScreen
unfolding reset_category_editor
close_category_menu e =
    if e.is_category_menu_open
    then reset_category_editor (record e { is_category_menu_open = false })
    else e

unfoldable pub start_editing_task_list : TaskList → CategoryScreen → CategoryScreen
start_editing_task_list list e = record e {
  is_adding_category = false;
  is_delete_category_confirming = false;
  editing_task_list_id = some list.id;
  editing_list_name = list.name;
  editing_list_color = list.color;
  editing_google_sync_enabled = list.google_sync_enabled;
}

-- `none` is a name without letters, for which there is no request.
unfoldable pub handle_create_task_list : CategoryScreen → CategoryScreen × Option ListRequest
unfolding trim
handle_create_task_list e =
    let name = trim e.new_list_name in
    (
      with_error none e,
      if is_empty name then none else some (ListRequest.posts name e.new_list_color),
    )

unfoldable pub handle_create_answered : Platform → Reply TaskList → CategoryScreen → CategoryScreen
unfolding sort_lists close_category_menu
handle_create_answered p (Reply.answered row) e = close_category_menu (record e {
  new_list_name = [];
  new_list_color = default_category_color;
  editing_task_list_id = none;
  task_lists = sort_lists p (e.task_lists ++ row ∷ []);
  active_list_id = some row.id;
  is_adding_category = false;
})
handle_create_answered p (Reply.refused error) e =
    with_error (some (message_or (codes "Unable to create category") error)) e

abbrev updating : Option Text → CategoryScreen → Option ListRequest
updating none e = none
updating (some id) e =
    let name = trim e.editing_list_name in
    if is_empty name
    then none
    else some (ListRequest.patches id name e.editing_list_color e.editing_google_sync_enabled)

unfoldable pub handle_update_task_list : CategoryScreen → CategoryScreen × Option ListRequest
unfolding trim
handle_update_task_list e = (with_error none e, updating e.editing_task_list_id e)

-- `lists.map((list) => list.id === updated.id ? updated : list)`
unfoldable pub replace_list : TaskList → List TaskList → List TaskList
replace_list row lists = map (λ l. if text_eq l.id row.id then row else l) lists

unfoldable pub handle_update_answered : Platform → Reply TaskList → CategoryScreen → CategoryScreen
unfolding sort_lists replace_list reset_category_editor close_category_menu
handle_update_answered p (Reply.answered row) e =
    close_category_menu (
      reset_category_editor
        (record e { task_lists = sort_lists p (replace_list row e.task_lists) }))
handle_update_answered p (Reply.refused error) e =
    with_error (some (message_or (codes "Unable to update category") error)) e

abbrev pub start_deleting : CategoryScreen → CategoryScreen
start_deleting e = record e { screen = record e.screen { form_error = none; is_deleting = true } }

abbrev deleting : Option Text → CategoryScreen → CategoryScreen × Option ListRequest
deleting none e = (e, none)
deleting (some id) e = (start_deleting e, some (ListRequest.deletes id))

unfoldable pub handle_delete_editing_task_list :
    CategoryScreen → CategoryScreen × Option ListRequest
handle_delete_editing_task_list e = deleting e.editing_task_list_id e

-- The selected task is left when it was in the category; `tasks` are those of the closure.
abbrev pub task_in : Option ScheduledTask → Text → Bool
task_in none id = false
task_in (some task) id = option_text_eq task.list_id (some id)

abbrev pub selected_without : List ScheduledTask → Text → Option Text → Option Text
selected_without tasks id none = none
selected_without tasks id (some selected) =
    if task_in (find_task tasks selected) id then none else some selected

-- What both ways to delete a category do with the answer.
abbrev pub forget_list : List ScheduledTask → Text → CategoryScreen → CategoryScreen
forget_list tasks id e = record e {
  active_list_id = if option_text_eq e.active_list_id (some id) then none else e.active_list_id;
  screen = record e.screen { selected = selected_without tasks id e.screen.selected };
}

abbrev pub reload_lists : CategoryScreen → CategoryScreen
reload_lists e = record e { listing_lists = e.listing_lists + 1; screen = reload_tasks e.screen }

abbrev pub deleted : CategoryScreen → CategoryScreen
deleted e = record e { screen = record e.screen { is_deleting = false } }

unfoldable pub handle_delete_editing_answered {ℓ} :
    {A : Type ℓ} → List ScheduledTask → Text → Reply A → CategoryScreen → CategoryScreen
unfolding option_text_eq find_task reset_category_editor close_category_menu reload_tasks
handle_delete_editing_answered tasks id (Reply.answered _) e =
    deleted (reload_lists (close_category_menu (reset_category_editor (forget_list tasks id e))))
handle_delete_editing_answered tasks id (Reply.refused error) e =
    deleted (with_error (some (message_or (codes "Unable to delete category") error)) e)
