-- ===== src/Categories/Menu.antt =====
-- `handleDeleteFromMenu` and `refreshTaskLists` of frontend/src/App.tsx.
use task_calendar.Base.{◌-◌, Bool, Option, none, some, List, [], if◌then◌else◌}
use task_calendar.Base.Text.{Text, codes, option_text_eq}
use task_calendar.Categories.{
  CategoryScreen, ListRequest, with_error, start_deleting, forget_list, reload_lists, deleted,
}
use task_calendar.Session.{
  Screen, ContextMenu, DeleteSource, Request, Reply, message_or, find, reload_tasks, reset_screen,
}
use task_calendar.Session.Removals.{DeleteRun, prompt_recurring_task_delete, run_task_delete}
use task_calendar.Store.{find_task}
use task_calendar.Task.{ScheduledTask}
use task_calendar.Undo.{DeleteScope}
use task_calendar.Views.{TaskList}

-- What a choice of "Delete" in the menu leads to: nothing, the deletion of a task or the request to
-- delete a category.
pub data MenuDelete : Type 0 where
  nothing : MenuDelete
  task_request : DeleteRun → Request → MenuDelete
  list_request : ListRequest → MenuDelete

abbrev deletes_task :
    CategoryScreen → Text → Screen × DeleteRun × Request → CategoryScreen × MenuDelete
deletes_task e id (s, run, request) = (record e { screen = s }, MenuDelete.task_request run request)

abbrev prompted : CategoryScreen → Text → Option Screen → CategoryScreen × MenuDelete
prompted e id (some asking) = (record e { screen = asking }, MenuDelete.nothing)
prompted e id none =
    deletes_task e id (run_task_delete id DeleteSource.menu DeleteScope.single e.screen)

abbrev menu_task : CategoryScreen → Text → Option ScheduledTask → CategoryScreen × MenuDelete
menu_task e id none = (with_error (some (codes "Task not found")) e, MenuDelete.nothing)
menu_task e id (some task) =
    prompted e id (prompt_recurring_task_delete task DeleteSource.menu e.screen)

abbrev menu_delete : Option ContextMenu → CategoryScreen → CategoryScreen × MenuDelete
menu_delete none e = (e, MenuDelete.nothing)
menu_delete (some (ContextMenu.task id)) e = menu_task e id (find e.screen id)
menu_delete (some (ContextMenu.category id)) e =
    (start_deleting e, MenuDelete.list_request (ListRequest.deletes id))

unfoldable pub handle_delete_from_menu : CategoryScreen → CategoryScreen × MenuDelete
unfolding prompt_recurring_task_delete run_task_delete find_task
handle_delete_from_menu e = menu_delete e.screen.menu e

abbrev menu_closed : CategoryScreen → CategoryScreen
menu_closed e = record e { screen = record e.screen { menu = none } }

unfoldable pub handle_delete_menu_answered {ℓ} :
    {A : Type ℓ} → List ScheduledTask → Text → Reply A → CategoryScreen → CategoryScreen
unfolding option_text_eq find_task reload_tasks
handle_delete_menu_answered tasks id (Reply.answered _) e =
    deleted (reload_lists (menu_closed (forget_list tasks id e)))
handle_delete_menu_answered tasks id (Reply.refused error) e =
    deleted (with_error (some (message_or (codes "Unable to delete") error)) e)

-- An answer to the request for all categories.
pub data ListsAnswer : Type 0 where
  loaded : List TaskList → ListsAnswer
  expired : ListsAnswer
  failed : Option Text → ListsAnswer

unfoldable pub lists_answered : Bool → ListsAnswer → CategoryScreen → CategoryScreen
lists_answered silent answer e =
    let counted = record e { listing_lists = e.listing_lists - 1 } in
    elim answer [
      | ListsAnswer.loaded lists ↦ record counted { task_lists = lists }
      | ListsAnswer.expired ↦ record counted { task_lists = []; screen = reset_screen e.screen }
      | ListsAnswer.failed error ↦
          if silent
          then counted
          else with_error (some (message_or (codes "Unable to load categories") error)) counted
    ]
