-- ===== src/Tests/Requests.antt =====
-- Requests and their answers at concrete texts.
use task_calendar.Base.{ℕ, true, false, none, some, [], ◌∷◌, All, ◌≡◌, ◌↔◌, refl}
use task_calendar.Base.Json.{Json}
use task_calendar.Base.Text.{codes, text_eq, is_empty, or_null}
use task_calendar.Api.{Detail, Response, Outcome, ExpiredKind, ErrorReader, request_json}
use task_calendar.Api.Calls.{with_session, get_stored_auth_token}
use task_calendar.Api.Calls.Accounts.{login_answered}
use task_calendar.Api.Calls.Authorized.{Arguments, Carries, session_calls, login_answered-Carries}
use task_calendar.Api.Dates.{IsZoned, normalize_task_dates, normalize_task_dates-IsZoned}
use task_calendar.Api.Errors.{Delivers, Expired, request_json-value, request_json-expired}
use task_calendar.Storage.{LocalStorage}
use task_calendar.Task.{ScheduledTask, no_update}
use task_calendar.Tests.Data.{milk}

abbrev found : Response ℕ
found = record {
  status = 200;
  redirected = false;
  url = codes "https://server/api/tasks";
  content_type = some (codes "application/json; charset=utf-8");
  body = some 7;
  detail = Detail.missing;
}

request_json-value_example :
    ((request_json (codes "/api/tasks") (with_session ErrorReader.default) (some found)).outcome
      ≡ Outcome.value 7)
    ↔ ((r : Response ℕ) × (some found ≡ some r) × Delivers (with_session ErrorReader.default) r 7)
request_json-value_example =
    request_json-value (codes "/api/tasks") (with_session ErrorReader.default) (some found) 7

abbrev unauthorized : Response ℕ
unauthorized = record found { status = 401; detail = Detail.said (codes "expired") }

request_json-expired_example :
    ((request_json
        (codes "/auth/me")
        (with_session ErrorReader.messages)
        (some unauthorized)).expired
      ≡ some (ExpiredKind.application, codes "/auth/me"))
    ↔ ((r : Response ℕ) × (some unauthorized ≡ some r)
        × (true ≡ true)
        × (codes "/auth/me" ≡ codes "/auth/me")
        × Expired ExpiredKind.application (with_session ErrorReader.messages) r)
request_json-expired_example =
    request_json-expired (codes "/auth/me") (codes "/auth/me") (with_session ErrorReader.messages)
      (some unauthorized) ExpiredKind.application

-- The server's time of a task without a zone.
abbrev bare : ScheduledTask
bare = record milk { scheduled_start = some (codes "2026-03-04T09:00:00"); due_at = none }

normalize_task_dates-IsZoned_example :
    All IsZoned (
      (normalize_task_dates bare).scheduled_start
      ∷ (normalize_task_dates bare).scheduled_end
      ∷ (normalize_task_dates bare).due_at
      ∷ (normalize_task_dates bare).completed_at
      ∷ (normalize_task_dates bare).notification_sent_at
      ∷ or_null (normalize_task_dates bare).created_at
      ∷ or_null (normalize_task_dates bare).updated_at
      ∷ [])
    × (normalize_task_dates (normalize_task_dates bare) ≡ normalize_task_dates bare)
    × ((is_empty (normalize_task_dates bare).created_at ≡ is_empty bare.created_at)
        × (is_empty (normalize_task_dates bare).updated_at ≡ is_empty bare.updated_at))
normalize_task_dates-IsZoned_example = normalize_task_dates-IsZoned bare

abbrev some_arguments : Arguments
some_arguments = record {
  search = λ params. [];
  id = codes "a";
  listing = record {
    range_start = none;
    range_end = none;
    completed = none;
    list_id = none;
    is_overdue_view = false;
  };
  input = record {
    title = codes "Milk";
    list_id = none;
    notes = none;
    completed = none;
    scheduled_start = none;
    scheduled_end = none;
    all_day = none;
    due_at = none;
    timezone = none;
    priority = none;
    unscheduled_order = none;
    recurrence_rule = none;
    notification_enabled = none;
    notification_offset_minutes = none;
    notification_channel = none;
  };
  update = no_update;
  scope = none;
  removal = none;
  category = record { name = none; color = none; google_sync_enabled = none };
  zone = record { timezone = none };
  password = record {
    current_password = codes "old";
    new_password = codes "new";
    confirm_new_password = codes "new";
  };
  account = record { confirmation = codes "DELETE" };
  payload = Json.null;
  settings = record {
    discord_webhook_url = none;
    discord_message_template = none;
    working_hours_start = none;
    week_start = none;
    daily_todo_notification_enabled = none;
  };
  test = record { discord_webhook_url = none; discord_message_template = none };
}

abbrev signed_in : LocalStorage
signed_in = LocalStorage.store false ((codes "calendar-auth-token", codes "secret") ∷ [])

login_answered-Carries_example :
    All (Carries (codes "secret")) (session_calls (some (codes "secret")) some_arguments)
unfolding login_answered get_stored_auth_token text_eq
login_answered-Carries_example =
    login_answered-Carries (codes "secret") (codes "secret") (LocalStorage.store false []) signed_in
      (some (codes "secret")) some_arguments (λ e. cc) refl refl
