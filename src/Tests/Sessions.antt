-- ===== src/Tests/Sessions.antt =====
-- The handlers of the screen at concrete tasks.
use task_calendar.Base.{length, true, false, none, some, [], ◌∷◌, ◌≡◌, refl}
use task_calendar.Base.Int.{sub_ℕ, ℤ, pos}
use task_calendar.Base.Text.{codes, text_eq}
use task_calendar.Categories.{CategoryScreen}
use task_calendar.Platform.{Platform}
use task_calendar.Views.{TaskList}
use task_calendar.Session.{Screen, EditSource, Reply, find}
use task_calendar.Session.Moves.{
  handle_event_drop_answered, handle_event_resize_answered, handle_external_drop_answered,
}
use task_calendar.Session.Undoing.{Restores, turned, changes-Restores}
use task_calendar.Session.Updates.{
  run_task_update, run_task_update_answered, handle_checkbox_answered, quick_input,
}
use task_calendar.Store.{TaskStatus, find_task}
use task_calendar.Task.{ScheduledTask, UpdateScheduledTaskInput}
use task_calendar.Tests.Data.{milk, bread, shopping, browser, empty_screen}
use task_calendar.Undo.{UpdateScope}

abbrev screen : Screen
screen = record empty_screen {
  store = record {
    state = record { status = TaskStatus.ready; tasks = bread ∷ milk ∷ [] };
    local = [];
  };
  unscheduled_order = codes "a" ∷ codes "b" ∷ [];
  selected = some (codes "a");
}

milk_found : find screen (codes "a") ≡ some milk
unfolding find_task text_eq
milk_found = refl

abbrev written : Reply ScheduledTask
written = Reply.answered (record milk { title = codes "Shopping"; completed = true })

changes-Restores_example :
    Restores
      (run_task_update_answered
        (run_task_update (codes "a") shopping UpdateScope.single EditSource.form screen).1
        written
        screen)
      milk
      shopping
    × Restores
        (handle_event_drop_answered (find screen (codes "a")) shopping written screen)
        milk
        shopping
    × Restores
        (handle_event_resize_answered (find screen (codes "a")) shopping written screen)
        milk
        shopping
    × Restores (handle_external_drop_answered milk shopping written screen) milk shopping
    × Restores (handle_checkbox_answered milk written screen) milk (turned milk)
changes-Restores_example =
    changes-Restores screen screen (codes "a") milk
      (record milk { title = codes "Shopping"; completed = true }) shopping EditSource.form
      milk_found refl refl

abbrev lesson : ScheduledTask
lesson = record milk {
  scheduled_start = some (codes "2026-04-01T08:00:00.000Z");
  scheduled_end = some (codes "2026-04-01T08:30:00.000Z");
}

abbrev eight : ℤ
eight = pos 1775030400000

abbrev half_past : ℤ
half_past = pos 1775032200000

abbrev shorter : UpdateScheduledTaskInput
shorter = quick_input eight (pos 1775031300000)

-- Names by their length.
abbrev by_length : Platform
by_length = record browser { locale_compare = λ s t. sub_ℕ (length s) (length t) }

abbrev home : TaskList
home = record {
  id = codes "home";
  user_id = codes "u";
  name = codes "Home";
  color = codes "#ff0000";
  google_sync_enabled = false;
  created_at = codes "2026-01-01T00:00:00.000Z";
  updated_at = codes "2026-01-01T00:00:00.000Z";
}

abbrev garden : TaskList
garden = record home { id = codes "g"; name = codes "Garden" }

abbrev editor : CategoryScreen
editor = record {
  screen = screen;
  task_lists = garden ∷ [];
  active_list_id = none;
  is_category_menu_open = true;
  is_adding_category = true;
  is_delete_category_confirming = false;
  editing_task_list_id = none;
  new_list_name = codes "Home";
  new_list_color = codes "#ff0000";
  editing_list_name = [];
  editing_list_color = [];
  editing_google_sync_enabled = false;
  listing_lists = 0;
}
