-- ===== src/Prefs/Initial.antt =====
-- The preferences that the screen of frontend/src/App.tsx starts with and the effects that save them.
use task_calendar.Base.{ℕ, Bool, true, List, []}
use task_calendar.Base.Json.{JsonText}
use task_calendar.Base.Text.{Text}
use task_calendar.Prefs.{
  default_sidebar_width, default_working_hours, ThemeMode, WorkingHoursSettings,
  get_initial_theme_mode, save_theme_mode, get_initial_sidebar_open, save_sidebar_open,
  get_initial_sidebar_width, save_sidebar_width, get_initial_working_hours, save_working_hours,
  get_initial_show_completed_tasks, save_show_completed_tasks, get_initial_unscheduled_order,
  save_unscheduled_order,
}
use task_calendar.Storage.{LocalStorage}

-- The state that the program starts with, and the effects that save it.
pub record Preferences : Type 0 where
  pub theme_mode : ThemeMode
  pub is_sidebar_open : Bool
  pub sidebar_width : ℕ
  pub working_hours : WorkingHoursSettings
  pub show_completed_tasks : Bool
  pub unscheduled_order : List Text

abbrev pub initial_preferences : JsonText → LocalStorage → Preferences
initial_preferences json storage = record {
  theme_mode = get_initial_theme_mode storage;
  is_sidebar_open = get_initial_sidebar_open storage;
  sidebar_width = get_initial_sidebar_width storage;
  working_hours = get_initial_working_hours json storage;
  show_completed_tasks = get_initial_show_completed_tasks json storage;
  unscheduled_order = get_initial_unscheduled_order json storage;
}

abbrev pub save_preferences : JsonText → Preferences → LocalStorage → LocalStorage
save_preferences json p storage = save_unscheduled_order json p.unscheduled_order (
    save_show_completed_tasks json p.show_completed_tasks (
      save_working_hours json p.working_hours (
        save_sidebar_width p.sidebar_width
          (save_sidebar_open p.is_sidebar_open (save_theme_mode p.theme_mode storage)))))

-- What the program starts with where nothing is stored.
abbrev pub default_preferences : Preferences
default_preferences = record {
  theme_mode = ThemeMode.light;
  is_sidebar_open = true;
  sidebar_width = default_sidebar_width;
  working_hours = default_working_hours;
  show_completed_tasks = true;
  unscheduled_order = [];
}
