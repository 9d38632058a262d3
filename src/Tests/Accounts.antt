-- ===== src/Tests/Accounts.antt =====
-- A window in which a user signs in and out.
use task_calendar.Base.{false, none, some, [], ◌∷◌, ◌≡◌, refl}
use task_calendar.Base.Text.{codes, text_eq}
use task_calendar.Account.{Account, AuthMode, no_password}
use task_calendar.Account.SignIn.{sign_in_answered}
use task_calendar.Account.Steps.{Step, Reaches}
use task_calendar.Account.Steps.Token.{IsSynced, Reaches-IsSynced}
use task_calendar.Account.Display.{Display, SettingsAnswer, settings_answered}
use task_calendar.Account.Display.Hours.{settings_answered-ignores_hours}
use task_calendar.Api.Answers.{AppSettings}
use task_calendar.Base.Json.{JsonText}
use task_calendar.Prefs.{
  WeekStart, default_working_hours, save_theme_mode, save_sidebar_open, save_sidebar_width,
  save_working_hours, save_show_completed_tasks, save_unscheduled_order,
}
use task_calendar.Prefs.Initial.{save_preferences, default_preferences}
use task_calendar.Api.Calls.{get_stored_auth_token}
use task_calendar.Session.{Reply}
use task_calendar.Storage.{LocalStorage, set_item}
use task_calendar.Tests.Data.{empty_screen}

abbrev fresh : Account
fresh = record {
  storage = LocalStorage.store false ((codes "calendar-theme", codes "dark") ∷ []);
  auth_token = none;
  current_user = none;
  auth_error = none;
  is_submitting = false;
  auth_mode = AuthMode.login;
  username = codes "ann ";
  password = codes "secret";
  screen = empty_screen;
  task_lists = [];
  settings_view = none;
  password_form = no_password;
  delete_form = record { confirmation = []; is_deleting = false; error = none };
  admin = record {
    users = [];
    error = none;
    is_loading = false;
    candidate = none;
    deleting_id = none;
  };
  backup = record {
    summary = none;
    import_file = none;
    import_message = none;
    import_error = none;
    is_loading = false;
    is_importing = false;
  };
  webhook = record {
    settings = none;
    url = [];
    template = [];
    test_message = none;
    is_daily_enabled = false;
    is_saving = false;
    is_testing = false;
  };
  google = record {
    status = none;
    error = none;
    is_loading = false;
    is_connecting = false;
    is_disconnecting = false;
    is_syncing = false;
    is_confirming = false;
  };
  reloads = 0;
}

abbrev inside : Account
inside = (sign_in_answered none (Reply.answered (codes "token")) fresh).0

Reaches-IsSynced_example : IsSynced inside
unfolding get_stored_auth_token text_eq
Reaches-IsSynced_example =
    Reaches-IsSynced fresh inside
      (Reaches.next Reaches.done (Step.sign_in none (Reply.answered (codes "token")))) refl

-- A text for every value; nothing here reads one.
abbrev some_json : JsonText
some_json = record { parse = λ text. none; stringify = λ value. codes "{}" }

abbrev started : Display
started = record {
  account = record fresh {
    storage = save_preferences some_json default_preferences (LocalStorage.store false []);
  };
  working_hours = default_working_hours;
  week_start = WeekStart.sunday;
  is_timezone_saving = false;
  timezone_error = none;
  expanded_section = none;
}

abbrev early_settings : AppSettings
early_settings = record {
  id = 1;
  discord_webhook_url = none;
  discord_message_template = none;
  working_hours_start = codes "06:00";
  week_start = codes "monday";
  daily_todo_notification_enabled = false;
  created_at = codes "2026-01-01T00:00:00.000Z";
  updated_at = codes "2026-01-01T00:00:00.000Z";
}

abbrev loaded_display : Display
loaded_display = record started {
  account = record started.account {
    webhook = record started.account.webhook { settings = some early_settings };
  };
  week_start = WeekStart.monday;
}

settings_loaded :
    settings_answered (SettingsAnswer.loaded early_settings) started ≡ some loaded_display
unfolding settings_answered save_theme_mode save_sidebar_open save_sidebar_width save_working_hours
    save_show_completed_tasks save_unscheduled_order set_item
settings_loaded = refl

settings_answered-ignores_hours_example : loaded_display.working_hours ≡ started.working_hours
settings_answered-ignores_hours_example =
    settings_answered-ignores_hours some_json default_preferences (LocalStorage.store false [])
      early_settings started loaded_display tt refl settings_loaded
