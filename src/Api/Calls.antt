-- ===== src/Api/Calls.antt =====
-- The requests of frontend/src/api: routes, headers, bodies and options of each call. A body is the
-- JSON value whose text is sent. Each function gives what it asks `requestJson` for.
pub mod Tasks
pub mod Accounts
pub mod Settings
pub mod Authorized
use task_calendar.Base.{
  Bool, true, false, Option, none, some, List, [], ◌∷◌, ◌++◌, if◌then◌else◌, filter, not,
}
use task_calendar.Base.Json.{Json, Items, Members, count, or_nothing, optional}
use task_calendar.Base.Maps.{entry, set_entry}
use task_calendar.Base.Text.{Text, codes, is_empty, text_eq, trim}
use task_calendar.Api.{ErrorReader, RequestJsonOptions}
use task_calendar.Storage.{LocalStorage, Item, get_item}

-- A call of `requestJson`; `headers` are those of the caller.
pub record Call : Type 0 where
  pub path : Text
  pub method : Text
  pub headers : List (Text × Text)
  pub body : Option Json
  pub options : RequestJsonOptions

-- `{ ...first, ...second }`
abbrev pub spread : List (Text × Text) → List (Text × Text) → List (Text × Text)
spread first [] = first
spread first ((k, v) ∷ rest) = spread (set_entry k v first) rest

-- The headers that `requestJson` gives to `fetch`.
unfoldable pub sent_headers : Call → List (Text × Text)
unfolding set_entry
sent_headers call =
    spread
      (if call.options.includes_content_type
        then (codes "Content-Type", codes "application/json") ∷ []
        else [])
      call.headers

-- The token of the session, and `none` where reading the store throws.
unfoldable pub get_stored_auth_token : LocalStorage → Option (Option Text)
unfolding entry
get_stored_auth_token (LocalStorage.store full items) =
    some (entry items (codes "calendar-auth-token"))
get_stored_auth_token LocalStorage.missing = none
get_stored_auth_token LocalStorage.blocked = none

-- `none` is an exception, also of a store that is full.
unfoldable pub store_auth_token : Text → LocalStorage → Option LocalStorage
unfolding set_entry
store_auth_token token (LocalStorage.store false items) =
    some (LocalStorage.store false (set_entry (codes "calendar-auth-token") token items))
store_auth_token token other = none

unfoldable pub get_auth_headers : Option Text → List (Text × Text)
get_auth_headers none = []
get_auth_headers (some []) = []
get_auth_headers (some (c ∷ token)) = (codes "Authorization", codes "Bearer " ++ c ∷ token) ∷ []

-- The options of the calls that need a session, by how they read an error.
abbrev pub with_session : ErrorReader → RequestJsonOptions
with_session reader = record {
  reader = reader;
  creates_auth_error = true;
  includes_content_type = true;
  notifies_unauthorized = true;
}

-- `request` of tasks.ts, taskLists.ts, settings.ts and googleCalendar.ts
unfoldable pub request : ErrorReader → Option Text → Text → Text → Option Json → Call
unfolding get_auth_headers
request reader token path method body = record {
  path = path;
  method = method;
  headers = get_auth_headers token;
  body = body;
  options = with_session reader;
}
