-- ===== src/Api/Calls/Accounts.antt =====
-- The requests of frontend/src/api/auth.ts, admin.ts, backup.ts and health.ts.
use task_calendar.Base.{true, false, Option, none, some, List, [], ◌++◌, take}
use task_calendar.Base.Int.{ℤ}
use task_calendar.Base.Json.{Json, Members, or_nothing}
use task_calendar.Base.Text.{Text, codes, text_eq}
use task_calendar.Api.{ErrorReader, Outcome}
use task_calendar.Api.Calls.{Call, with_session, get_auth_headers, store_auth_token}
use task_calendar.Api.Routes
use task_calendar.Clock.Civil.{to_iso}
use task_calendar.Storage.{LocalStorage}

pub record AuthCredentials : Type 0 where
  pub username : Text
  pub password : Text

pub record UpdateTimezoneInput : Type 0 where
  pub timezone : Option Text

pub record ChangePasswordInput : Type 0 where
  pub current_password : Text
  pub new_password : Text
  pub confirm_new_password : Text

pub record DeleteAccountInput : Type 0 where
  pub confirmation : Text

-- `requestAuth`: only `/auth/me` listens for the end of the session.
unfoldable pub request_auth : Text → Text → List (Text × Text) → Option Json → Call
unfolding text_eq
request_auth path method headers body = record {
  path = path;
  method = method;
  headers = headers;
  body = body;
  options = record {
    reader = ErrorReader.messages;
    creates_auth_error = true;
    includes_content_type = true;
    notifies_unauthorized = text_eq path Routes.auth_me;
  };
}

abbrev credentials_json : AuthCredentials → Json
credentials_json credentials = Json.obj (
    Members.member (codes "username") (Json.str credentials.username)
      (Members.member (codes "password") (Json.str credentials.password) Members.end))

unfoldable pub login : AuthCredentials → Call
unfolding request_auth
login credentials =
    request_auth Routes.auth_login (codes "POST") [] (some (credentials_json credentials))

-- After an answer with an access token: the token that is given and the store that keeps it; `none`
-- is an exception.
unfoldable pub login_answered : Outcome Text → LocalStorage → Option (Text × LocalStorage)
unfolding store_auth_token
login_answered (Outcome.value access_token) storage = elim (store_auth_token access_token storage) [
  | none ↦ none
  | some kept ↦ some (access_token, kept)
]
login_answered other storage = none

unfoldable pub register : AuthCredentials → Call
unfolding request_auth
register credentials =
    request_auth Routes.auth_register (codes "POST") [] (some (credentials_json credentials))

unfoldable pub get_current_user : Option Text → Call
unfolding request_auth get_auth_headers
get_current_user token = request_auth Routes.auth_me (codes "GET") (get_auth_headers token) none

unfoldable pub update_timezone : Option Text → UpdateTimezoneInput → Call
unfolding request_auth get_auth_headers
update_timezone token input =
    request_auth Routes.auth_timezone (codes "PATCH") (get_auth_headers token)
      (some (Json.obj (Members.member (codes "timezone") (or_nothing input.timezone) Members.end)))

unfoldable pub change_password : Option Text → ChangePasswordInput → Call
unfolding request_auth get_auth_headers
change_password token input =
    request_auth Routes.auth_password (codes "PATCH") (get_auth_headers token) (
      some (
        Json.obj (
          Members.member (codes "current_password") (Json.str input.current_password) (
            Members.member (codes "new_password") (Json.str input.new_password) (
              Members.member (codes "confirm_new_password") (Json.str input.confirm_new_password)
                Members.end)))))

unfoldable pub delete_account : Option Text → DeleteAccountInput → Call
unfolding request_auth get_auth_headers
delete_account token input = request_auth Routes.auth_me (codes "DELETE") (get_auth_headers token) (
    some
      (Json.obj (Members.member (codes "confirmation") (Json.str input.confirmation) Members.end)))

abbrev session_call : ErrorReader → Option Text → Text → Text → Option Json → Call
session_call reader token path method body = record {
  path = path;
  method = method;
  headers = get_auth_headers token;
  body = body;
  options = with_session reader;
}

unfoldable pub list_admin_users : Option Text → Call
unfolding get_auth_headers
list_admin_users token =
    session_call ErrorReader.default token Routes.admin_users (codes "GET") none

unfoldable pub delete_admin_user : Option Text → Text → Call
unfolding get_auth_headers
delete_admin_user token user_id =
    session_call ErrorReader.default token (Routes.admin_user user_id) (codes "DELETE") none

unfoldable pub fetch_backup_export : Option Text → Call
unfolding get_auth_headers
fetch_backup_export token =
    session_call ErrorReader.status_only token Routes.backup_export (codes "GET") none

-- The payload is what the chosen file holds.
unfoldable pub import_backup : Option Text → Json → Call
unfolding get_auth_headers
import_backup token payload =
    session_call ErrorReader.backup token Routes.backup_import (codes "POST") (some payload)

-- `anchor.download` of `downloadBackupPayload`
unfoldable pub backup_file_name : ℤ → Text
backup_file_name now = codes "calendar-backup-" ++ take 10 (to_iso now) ++ codes ".json"

unfoldable pub get_health : Call
get_health = record {
  path = Routes.health;
  method = codes "GET";
  headers = [];
  body = none;
  options = record {
    reader = ErrorReader.health;
    creates_auth_error = false;
    includes_content_type = false;
    notifies_unauthorized = false;
  };
}
