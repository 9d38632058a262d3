-- ===== src/Api/Routes.antt =====
-- The addresses of the server, frontend/src/api/base.ts.
use task_calendar.Base.{Option, none, some, [], ◌∷◌, ◌++◌}
use task_calendar.Base.Text.{Text, codes, trim}

-- `API_BASE_URL`, from the build's variable, which may be missing.
abbrev pub api_base_url : Option Text → Text
api_base_url none = []
api_base_url (some raw) = trim raw

unfoldable pub resolve_api_url : Text → Text → Text
resolve_api_url [] path = path
resolve_api_url (c ∷ base) path = (c ∷ base) ++ path

-- `API_ROUTES`
abbrev pub admin_users : Text
admin_users = codes "/admin/users"

abbrev pub admin_user : Text → Text
admin_user user_id = codes "/admin/users/" ++ user_id

abbrev pub auth_login : Text
auth_login = codes "/auth/login"

abbrev pub auth_register : Text
auth_register = codes "/auth/register"

abbrev pub auth_me : Text
auth_me = codes "/auth/me"

abbrev pub auth_timezone : Text
auth_timezone = codes "/auth/me/timezone"

abbrev pub auth_password : Text
auth_password = codes "/auth/password"

abbrev pub backup_export : Text
backup_export = codes "/backup/export"

abbrev pub backup_import : Text
backup_import = codes "/backup/import"

abbrev pub google_status : Text
google_status = codes "/api/google-calendar/status"

abbrev pub google_connect : Text
google_connect = codes "/api/google-calendar/connect"

abbrev pub google_disconnect : Text
google_disconnect = codes "/api/google-calendar/disconnect"

abbrev pub google_sync_now : Text
google_sync_now = codes "/api/google-calendar/sync-now"

abbrev pub health : Text
health = codes "/health"

abbrev pub settings_root : Text
settings_root = codes "/api/settings"

abbrev pub settings_test_discord : Text
settings_test_discord = codes "/api/settings/test-discord"

abbrev pub task_lists_root : Text
task_lists_root = codes "/api/task-lists"

abbrev pub task_lists_item : Text → Text
task_lists_item task_list_id = codes "/api/task-lists/" ++ task_list_id

abbrev pub tasks_root : Text
tasks_root = codes "/api/tasks"

abbrev pub tasks_item : Text → Text
tasks_item task_id = codes "/api/tasks/" ++ task_id

abbrev pub tasks_complete : Text → Text
tasks_complete task_id = codes "/api/tasks/" ++ task_id ++ codes "/complete"

abbrev pub tasks_uncomplete : Text → Text
tasks_uncomplete task_id = codes "/api/tasks/" ++ task_id ++ codes "/uncomplete"
