-- ===== src/Tests/Preferences.antt =====
-- Stored preferences at concrete values.
use task_calendar.Base.{false, Option, none, some, [], ◌∷◌, ◌≡◌, refl, if◌then◌else◌, arith}
use task_calendar.Base.Ids.{contains}
use task_calendar.Base.Json.{Json, JsonText, texts}
use task_calendar.Base.Text.{Text, codes, text_eq}
use task_calendar.Prefs.{
  ThemeMode, WorkingHoursSettings, hours_json, working_hour_options, clear_stored_user_preferences,
}
use task_calendar.Prefs.Initial.{
  Preferences, initial_preferences, save_preferences, default_preferences,
}
use task_calendar.Prefs.RoundTrip.{
  initial_preferences-save_preferences, clear_stored_user_preferences_lem,
}
use task_calendar.Prefs.Stored.{IsValid, initial_preferences-IsValid}
use task_calendar.Storage.{LocalStorage, get_item}

abbrev early : WorkingHoursSettings
early = record { start = codes "06:00"; end = codes "15:00" }

abbrev early_text : Text
early_text = codes "{'start':'06:00','end':'15:00'}"

abbrev two_ids : Json
two_ids = Json.arr (texts (codes "b" ∷ codes "a" ∷ []))

-- A reader and a writer for the values of this file.
unfoldable parse_here : Text → Option Json
unfolding text_eq
parse_here text =
    if text_eq text early_text
    then some (hours_json early)
    else if text_eq text (codes "false")
    then some (Json.bool false)
    else if text_eq text (codes "['b','a']")
    then some two_ids
    else none

abbrev write_here : Json → Text
write_here (Json.obj members) = early_text
write_here (Json.arr items) = codes "['b','a']"
write_here other = codes "false"

abbrev json_here : JsonText
json_here = record { parse = parse_here; stringify = write_here }

abbrev chosen : Preferences
chosen = record {
  theme_mode = ThemeMode.dark;
  is_sidebar_open = false;
  sidebar_width = 420;
  working_hours = early;
  show_completed_tasks = false;
  unscheduled_order = codes "b" ∷ codes "a" ∷ [];
}

-- A store with a theme and a sidebar that is too narrow.
abbrev narrow : LocalStorage
narrow =
    LocalStorage.store false
      ((codes "calendar-theme", codes "dark") ∷ (codes "calendar-sidebar-width", codes "12px") ∷ [])

initial_preferences-IsValid_example : IsValid (initial_preferences json_here narrow)
initial_preferences-IsValid_example = initial_preferences-IsValid json_here narrow

initial_preferences-save_preferences_example :
    initial_preferences json_here (save_preferences json_here chosen narrow) ≡ chosen
unfolding parse_here working_hour_options contains text_eq
initial_preferences-save_preferences_example =
    initial_preferences-save_preferences json_here chosen narrow tt (omega arith, refl, refl)
      (refl, refl, refl, refl)

clear_stored_user_preferences_example :
    (initial_preferences json_here (clear_stored_user_preferences narrow) ≡ default_preferences)
    × (get_item (clear_stored_user_preferences narrow) (codes "calendar-auth-token")
        ≡ get_item narrow (codes "calendar-auth-token"))
clear_stored_user_preferences_example = clear_stored_user_preferences_lem json_here narrow
