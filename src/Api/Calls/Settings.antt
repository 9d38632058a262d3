-- ===== src/Api/Calls/Settings.antt =====
-- The requests of frontend/src/api/settings.ts and googleCalendar.ts.
use task_calendar.Base.{Bool, Option, none, some}
use task_calendar.Base.Json.{Json, Members, or_nothing, optional}
use task_calendar.Base.Text.{Text, codes}
use task_calendar.Api.{ErrorReader}
use task_calendar.Api.Calls.{Call, request}
use task_calendar.Api.Routes
use task_calendar.Prefs.{WeekStart}

pub record UpdateAppSettingsInput : Type 0 where
  pub discord_webhook_url : Option (Option Text)
  pub discord_message_template : Option (Option Text)
  pub working_hours_start : Option Text
  pub week_start : Option WeekStart
  pub daily_todo_notification_enabled : Option Bool

pub record TestAppSettingsInput : Type 0 where
  pub discord_webhook_url : Option (Option Text)
  pub discord_message_template : Option (Option Text)

abbrev week_start_json : WeekStart → Json
week_start_json WeekStart.sunday = Json.str (codes "sunday")
week_start_json WeekStart.monday = Json.str (codes "monday")

unfoldable pub get_settings : Option Text → Call
unfolding request
get_settings token = request ErrorReader.default token Routes.settings_root (codes "GET") none

unfoldable pub update_settings : Option Text → UpdateAppSettingsInput → Call
unfolding request
update_settings token input =
    request ErrorReader.default token Routes.settings_root (codes "PATCH") (
      some (
        Json.obj (
          optional (codes "discord_webhook_url") or_nothing input.discord_webhook_url (
            optional (codes "discord_message_template") or_nothing input.discord_message_template (
              optional (codes "working_hours_start") Json.str input.working_hours_start (
                optional (codes "week_start") week_start_json input.week_start (
                  optional (codes "daily_todo_notification_enabled") Json.bool
                    input.daily_todo_notification_enabled Members.end)))))))

unfoldable pub test_settings : Option Text → TestAppSettingsInput → Call
unfolding request
test_settings token input =
    request ErrorReader.default token Routes.settings_test_discord (codes "POST") (
      some (
        Json.obj (
          optional (codes "discord_webhook_url") or_nothing input.discord_webhook_url (
            optional (codes "discord_message_template") or_nothing input.discord_message_template
              Members.end))))

unfoldable pub get_google_calendar_status : Option Text → Call
unfolding request
get_google_calendar_status token =
    request ErrorReader.default token Routes.google_status (codes "GET") none

unfoldable pub connect_google_calendar : Option Text → Call
unfolding request
connect_google_calendar token =
    request ErrorReader.default token Routes.google_connect (codes "POST") none

unfoldable pub disconnect_google_calendar : Option Text → Call
unfolding request
disconnect_google_calendar token =
    request ErrorReader.default token Routes.google_disconnect (codes "POST") none

unfoldable pub sync_google_calendar_now : Option Text → Call
unfolding request
sync_google_calendar_now token =
    request ErrorReader.default token Routes.google_sync_now (codes "POST") none
