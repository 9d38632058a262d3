-- ===== src/Account/Backup.antt =====
-- The export and the import of a backup, frontend/src/App.tsx. The chosen file is its text, where
-- the browser can read it.
use task_calendar.Base.{true, false, Option, none, some, [], ◌++◌}
use task_calendar.Base.Json.{Json, JsonText}
use task_calendar.Base.Text.{Text, codes}
use task_calendar.Base.Text.Decimal.{show}
use task_calendar.Account.{Account}
use task_calendar.Api.Answers.{BackupImportResult}
use task_calendar.Session.{Reply, message_or, reload_tasks}

unfoldable pub handle_open_backup_summary : Account → Account
handle_open_backup_summary a = record a { backup = record a.backup { is_loading = true } }

unfoldable pub backup_summary_answered : Reply Json → Account → Account
backup_summary_answered (Reply.answered payload) a = record a {
  backup = record a.backup { summary = some payload; is_loading = false };
}
backup_summary_answered (Reply.refused error) a = record a {
  screen = record a.screen {
    form_error = some (message_or (codes "Unable to load backup summary") error);
  };
  backup = record a.backup { is_loading = false };
}

unfoldable pub handle_backup_import_file_change : Option Text → Account → Account
handle_backup_import_file_change file a = record a {
  backup = record a.backup { import_file = file; import_message = none; import_error = none };
}

abbrev failed : Text → Account → Account
failed message a = record a {
  backup = record a.backup { import_error = some message; is_importing = false };
}

abbrev pub payload_read : Option Json → Account → Account × Option Json
payload_read none a = (failed (codes "Backup file must be valid JSON.") a, none)
payload_read (some payload) a = (a, some payload)

abbrev pub importing : Account → Account
importing a = record a {
  backup = record a.backup { is_importing = true; import_message = none; import_error = none };
}

-- What is sent; `none` is no request.
unfoldable pub handle_confirm_backup_import :
    JsonText → Option Text → Account → Account × Option Json
handle_confirm_backup_import json none a = (
  record a {
    backup = record a.backup { import_error = some (codes "Choose a JSON backup file first.") };
  },
  none,
)
handle_confirm_backup_import json (some text) a = payload_read (json.parse text) (importing a)

-- The tasks that the user changed are forgotten, and all is loaded again; the answers end the import.
unfoldable pub backup_import_answered : Reply BackupImportResult → Account → Account
unfolding show reload_tasks
backup_import_answered (Reply.answered result) a = record a {
  backup = record a.backup {
    import_message = some (
        codes "Imported "
        ++ show result.imported_tasks
        ++ codes " tasks and "
        ++ show result.imported_task_lists
        ++ codes " categories.");
    import_file = none;
  };
  screen = reload_tasks (record a.screen { store = record a.screen.store { local = [] } });
}
backup_import_answered (Reply.refused error) a =
    failed (message_or (codes "Unable to import backup") error) a
