-- ===== src/Account/Settings.antt =====
-- The panels of the settings of frontend/src/App.tsx: which one is shown, the webhook, Google
-- Calendar and the backup.
use task_calendar.Base.{true, false, Option, none, some, [], or_else, if◌then◌else◌}
use task_calendar.Base.Text.{Text, codes, trim, or_null, is_empty}
use task_calendar.Account.{Account, SettingsView, close_settings_panels, reset_account_forms}
use task_calendar.Account.Users.{refresh_admin_users}
use task_calendar.Api.Answers.{AppSettings, GoogleCalendarStatus}
use task_calendar.Api.Calls.Settings.{UpdateAppSettingsInput, TestAppSettingsInput}
use task_calendar.Session.{Reply, PendingTaskEdit, message_or, close_detail_panel}

-- What every panel starts with.
abbrev closed_with : Option PendingTaskEdit → Account → Account
closed_with pending a =
    close_settings_panels (record a { screen = close_detail_panel pending a.screen })

abbrev closed : Account → Account
closed a = closed_with a.screen.pending_edit a

abbrev viewed : SettingsView → Account → Account
viewed view a = record a { settings_view = some view }

unfoldable pub open_settings_menu : Account → Account
unfolding close_detail_panel close_settings_panels reset_account_forms
open_settings_menu a = viewed SettingsView.menu (reset_account_forms (closed a))

abbrev draft_of : Option AppSettings → Account → Account
draft_of none a = record a { webhook = record a.webhook { url = []; template = [] } }
draft_of (some settings) a = record a {
  webhook = record a.webhook {
    url = or_else settings.discord_webhook_url [];
    template = or_else settings.discord_message_template [];
  };
}

unfoldable pub open_webhook_settings : Account → Account
unfolding close_detail_panel close_settings_panels
open_webhook_settings a =
    let shown = viewed SettingsView.webhook (closed a) in
    draft_of a.webhook.settings
      (record shown { webhook = record shown.webhook { test_message = none } })

-- The status is asked for with it.
unfoldable pub refresh_google_calendar_status : Account → Account
refresh_google_calendar_status a = record a {
  google = record a.google { is_loading = true; error = none };
}

unfoldable pub google_status_answered : Reply GoogleCalendarStatus → Account → Account
google_status_answered (Reply.answered status) a = record a {
  google = record a.google { status = some status; is_loading = false };
}
google_status_answered (Reply.refused error) a = record a {
  google = record a.google {
    error = some (message_or (codes "Unable to load Google Calendar status") error);
    is_loading = false;
  };
}

unfoldable pub open_google_calendar_settings : Account → Account
unfolding close_detail_panel close_settings_panels refresh_google_calendar_status
open_google_calendar_settings a =
    let shown = closed a in
    refresh_google_calendar_status (
      viewed SettingsView.google_calendar
        (record shown { google = record shown.google { error = none; is_confirming = false } }))

unfoldable pub open_backup_settings : Account → Account
unfolding close_detail_panel close_settings_panels
open_backup_settings a =
    let shown = closed a in
    viewed SettingsView.backup (record shown {
      backup = record shown.backup {
        import_message = none;
        import_error = none;
        import_file = none;
      };
    })

unfoldable pub open_account_settings : Account → Account
unfolding close_detail_panel close_settings_panels reset_account_forms
open_account_settings a = viewed SettingsView.account (reset_account_forms (closed a))

unfoldable pub open_change_password_settings : Account → Account
unfolding close_detail_panel close_settings_panels reset_account_forms
open_change_password_settings a =
    viewed SettingsView.change_password (reset_account_forms (closed a))

unfoldable pub open_delete_account_settings : Account → Account
unfolding close_detail_panel close_settings_panels reset_account_forms
open_delete_account_settings a = viewed SettingsView.delete_account (reset_account_forms (closed a))

unfoldable pub open_admin_settings : Account → Account
unfolding close_detail_panel close_settings_panels refresh_admin_users
open_admin_settings a = refresh_admin_users (viewed SettingsView.admin (closed a))

unfoldable pub normalize_webhook_message_template : Text → Option Text
unfolding trim
normalize_webhook_message_template value = or_null (trim value)

abbrev with_form_error : Option Text → Account → Account
with_form_error error a = record a { screen = record a.screen { form_error = error } }

unfoldable pub save_webhook_settings : Account → Account × UpdateAppSettingsInput
unfolding trim normalize_webhook_message_template
save_webhook_settings a = (
  record (with_form_error none a) {
    webhook = record a.webhook { test_message = none; is_saving = true };
  },
  record {
    discord_webhook_url = some (or_null (trim a.webhook.url));
    discord_message_template = some (normalize_webhook_message_template a.webhook.template);
    working_hours_start = none;
    week_start = none;
    daily_todo_notification_enabled = none;
  },
)

-- With what `handleSaveWebhookSettings` does after it: a saved one leads back to the menu. `closure` is
-- the pending edit of the handler's closure.
unfoldable pub handle_save_webhook_answered :
    Option PendingTaskEdit → Reply AppSettings → Account → Account
unfolding close_detail_panel close_settings_panels reset_account_forms
handle_save_webhook_answered closure (Reply.answered saved) a =
    let kept = record a {
      webhook = record a.webhook { settings = some saved; is_saving = false };
    } in
    viewed SettingsView.menu
      (reset_account_forms (closed_with closure (draft_of (some saved) kept)))
handle_save_webhook_answered closure (Reply.refused error) a =
    with_form_error (some (message_or (codes "Unable to save webhook settings") error))
      (record a { webhook = record a.webhook { is_saving = false } })

unfoldable pub handle_test_webhook_settings : Account → Account × TestAppSettingsInput
unfolding trim normalize_webhook_message_template
handle_test_webhook_settings a = (
  record (with_form_error none a) {
    webhook = record a.webhook { test_message = none; is_testing = true };
  },
  record {
    discord_webhook_url = some (or_null (trim a.webhook.url));
    discord_message_template = some (normalize_webhook_message_template a.webhook.template);
  },
)

unfoldable pub handle_test_webhook_answered : Reply Text → Account → Account
handle_test_webhook_answered (Reply.answered message) a = record a {
  webhook = record a.webhook { test_message = some message; is_testing = false };
}
handle_test_webhook_answered (Reply.refused error) a =
    with_form_error (some (message_or (codes "Unable to test webhook settings") error))
      (record a { webhook = record a.webhook { is_testing = false } })

unfoldable pub handle_connect_google_calendar : Account → Account
handle_connect_google_calendar a = record a {
  google = record a.google { error = none; is_connecting = true };
}

-- The address that the page goes to; an error stays on the page.
unfoldable pub handle_connect_answered : Reply Text → Account → Account × Option Text
handle_connect_answered (Reply.answered authorization_url) a = (a, some authorization_url)
handle_connect_answered (Reply.refused error) a = (
  record a {
    google = record a.google {
      error = some (message_or (codes "Unable to start Google Calendar connection") error);
      is_connecting = false;
    };
  },
  none,
)

unfoldable pub handle_disconnect_google_calendar : Account → Account
handle_disconnect_google_calendar a = record a {
  google = record a.google { error = none; is_disconnecting = true };
}

-- After the answer the status is asked for; its answer ends the handler.
unfoldable pub disconnect_answered {ℓ} : {A : Type ℓ} → Reply A → Account → Account
unfolding refresh_google_calendar_status
disconnect_answered (Reply.answered _) a =
    refresh_google_calendar_status (record a { google = record a.google { is_confirming = false } })
disconnect_answered (Reply.refused error) a = record a {
  google = record a.google {
    error = some (message_or (codes "Unable to disconnect Google Calendar") error);
    is_disconnecting = false;
  };
}

abbrev says : Text → Account → Account
says message a = record a { screen = record a.screen { snackbar = some message } }

unfoldable pub disconnect_status_answered : Reply GoogleCalendarStatus → Account → Account
unfolding google_status_answered
disconnect_status_answered answer a =
    let loaded = says (codes "Google Calendar disconnected.") (google_status_answered answer a) in
    record loaded { google = record loaded.google { is_disconnecting = false } }

unfoldable pub handle_sync_google_calendar_now : Account → Account
handle_sync_google_calendar_now a = record a {
  google = record a.google { error = none; is_syncing = true };
}

unfoldable pub sync_answered {ℓ} : {A : Type ℓ} → Reply A → Account → Account
unfolding refresh_google_calendar_status
sync_answered (Reply.answered _) a = refresh_google_calendar_status a
sync_answered (Reply.refused error) a = record a {
  google = record a.google {
    error = some (message_or (codes "Unable to sync Google Calendar") error);
    is_syncing = false;
  };
}

-- `message` is that of the sync's own answer.
unfoldable pub sync_status_answered : Text → Reply GoogleCalendarStatus → Account → Account
unfolding google_status_answered
sync_status_answered message answer a =
    let loaded =
      says
        (if is_empty message
          then codes "Sync started. Google Calendar will update in the background."
          else message)
        (google_status_answered answer a) in
    record loaded { google = record loaded.google { is_syncing = false } }
