-- ===== src/Account/Display.antt =====
-- The preferences that the server keeps too, frontend/src/App.tsx: working hours, the first day of
-- the week, the time zone and the daily message, and the answer to the request for all settings.
pub mod Hours
use task_calendar.Base.{Bool, true, false, not, Option, none, some, [], or_else, if◌then◌else◌}
use task_calendar.Base.Text.{Text, codes, truthy}
use task_calendar.Account.{Account, SettingsView, handle_auth_expired, close_settings_panels}
use task_calendar.Api.Answers.{AppSettings, AuthUser}
use task_calendar.Api.Calls.Accounts.{UpdateTimezoneInput}
use task_calendar.Api.Calls.Settings.{UpdateAppSettingsInput}
use task_calendar.Prefs.{
  WeekStart, WorkingHoursSettings, has_stored_working_hours, normalize_working_hour,
  normalize_week_start,
}
use task_calendar.Session.{Reply, message_or, close_detail_panel}

-- `PreferenceSectionId`
pub data PreferenceSection : Type 0 where
  week_start working_hours timezone : PreferenceSection

pub record Display : Type 0 where
  pub account : Account
  pub working_hours : WorkingHoursSettings
  pub week_start : WeekStart
  pub is_timezone_saving : Bool
  pub timezone_error : Option Text
  pub expanded_section : Option PreferenceSection

abbrev no_settings : UpdateAppSettingsInput
no_settings = record {
  discord_webhook_url = none;
  discord_message_template = none;
  working_hours_start = none;
  week_start = none;
  daily_todo_notification_enabled = none;
}

-- A request where a user is signed in; its answer is forgotten.
abbrev where_signed_in : Display → UpdateAppSettingsInput → Option UpdateAppSettingsInput
where_signed_in d input = if truthy d.account.auth_token then some input else none

-- The updates are a new start or a new end, or both.
unfoldable pub update_working_hours :
    Option Text → Option Text → Display → Display × Option UpdateAppSettingsInput
update_working_hours start end d = (
  record d {
    working_hours = record {
      start = or_else start d.working_hours.start;
      end = or_else end d.working_hours.end;
    };
  },
  if truthy start
      then where_signed_in d (record no_settings { working_hours_start = start })
      else none,
)

unfoldable pub update_week_start : WeekStart → Display → Display × Option UpdateAppSettingsInput
update_week_start value d = (
  record d { week_start = value },
  where_signed_in d (record no_settings { week_start = some value }),
)

unfoldable pub update_daily_todo_notification_enabled :
    Bool → Display → Display × Option UpdateAppSettingsInput
update_daily_todo_notification_enabled value d = (
  record d {
    account = record d.account { webhook = record d.account.webhook { is_daily_enabled = value } };
  },
  where_signed_in d (record no_settings { daily_todo_notification_enabled = some value }),
)

unfoldable pub handle_timezone_change : Option Text → Display → Display × Option UpdateTimezoneInput
handle_timezone_change zone d =
    if truthy d.account.auth_token
    then (
      record d { is_timezone_saving = true; timezone_error = none },
      some (record { timezone = zone }),
    )
    else (d, none)

unfoldable pub handle_timezone_answered : Reply AuthUser → Display → Display
handle_timezone_answered (Reply.answered user) d = record d {
  account = record d.account { current_user = some user };
  is_timezone_saving = false;
}
handle_timezone_answered (Reply.refused error) d = record d {
  timezone_error = some (message_or (codes "Unable to update time zone") error);
  is_timezone_saving = false;
}

pub data SettingsAnswer : Type 0 where
  loaded : AppSettings → SettingsAnswer
  unauthorized : SettingsAnswer
  failed : Option Text → SettingsAnswer

abbrev loaded_account : AppSettings → Account → Account
loaded_account settings a = record a {
  webhook = record a.webhook {
    settings = some settings;
    url = or_else settings.discord_webhook_url [];
    template = or_else settings.discord_message_template [];
    is_daily_enabled = settings.daily_todo_notification_enabled;
  };
}

abbrev pub loaded_hours : Bool → Text → WorkingHoursSettings → WorkingHoursSettings
loaded_hours true start current = current
loaded_hours false start current = record current {
  start = normalize_working_hour (some start) current.start;
}

-- `refreshWebhookSettings`
unfoldable pub settings_answered : SettingsAnswer → Display → Option Display
unfolding handle_auth_expired normalize_week_start has_stored_working_hours
settings_answered (SettingsAnswer.loaded settings) d = some (record d {
  account = loaded_account settings d.account;
  working_hours =
      loaded_hours (has_stored_working_hours d.account.storage) settings.working_hours_start
        d.working_hours;
  week_start = normalize_week_start (some settings.week_start);
})
settings_answered SettingsAnswer.unauthorized d = elim (handle_auth_expired d.account) [
  | none ↦ none
  | some account ↦ some (record d { account = account })
]
settings_answered (SettingsAnswer.failed error) d = some (record d {
  account = record d.account {
    screen = record d.account.screen {
      form_error = some (message_or (codes "Unable to load settings") error);
    };
  };
})

unfoldable pub open_calendar_display_settings : Display → Display
unfolding close_detail_panel close_settings_panels
open_calendar_display_settings d =
    let a = d.account in
    let closed =
      close_settings_panels
        (record a { screen = close_detail_panel a.screen.pending_edit a.screen }) in
    record d {
      account = record closed { settings_view = some SettingsView.calendar_display };
      expanded_section = none;
    }
