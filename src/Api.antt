-- ===== src/Api.antt =====
-- Requests to the server, frontend/src/api/base.ts: `requestJson` with its errors, and the event
-- that it dispatches in its own window when a session has expired. `fetch` and the reading of a
-- response's body are the browser's: the response is an input.
pub mod Errors
pub mod Routes
pub mod Answers
pub mod Calls
pub mod Dates
use task_calendar.Base.{
  ℕ, Bool, true, false, not, ◌&&◌, ◌||◌, Option, none, some, List, [], ◌∷◌, ◌++◌, map, filter, leb,
  ◌==◌, or_else, is_some, if◌then◌else◌, length,
}
use task_calendar.Base.Text.{Text, codes, is_empty, includes, to_lower, trim, join}
use task_calendar.Base.Text.Decimal.{show}

-- `body.detail` of an error's body: a text, the messages of a list (`none` for an item without one),
-- or neither, also where the body cannot be read.
pub data Detail : Type 0 where
  missing : Detail
  said : Text → Detail
  listed : List (Option Text) → Detail

-- `body` and `detail` are two readings of one text: as the type that the caller asserts, `none`
-- where `json()` throws, and as an error.
pub record Response {ℓ} (A : Type ℓ) : Type ℓ where
  pub status : ℕ
  pub redirected : Bool
  pub url : Text
  pub content_type : Option Text
  pub body : Option A
  pub detail : Detail

-- What was thrown: an `AuthError`, another `Error`, or what `fetch` or `json()` threw.
pub data Failure : Type 0 where
  auth_error error : Text → Failure
  broken : Failure

-- A response of status 204 has no value.
pub data Outcome {ℓ} (A : Type ℓ) : Type ℓ where
  value : A → Outcome A
  empty : Outcome A
  throws : Failure → Outcome A

pub data ExpiredKind : Type 0 where
  application cloudflare_access : ExpiredKind

-- The outcome of a request, and the `AuthSessionExpiredDetail` that was dispatched.
pub record Exchange {ℓ} (A : Type ℓ) : Type ℓ where
  pub outcome : Outcome A
  pub expired : Option (ExpiredKind × Text)

-- The `readErrorMessage` of the callers: for a text in the detail, for none at all, of auth.ts for a
-- list of messages, of backup.ts, and of health.ts.
pub data ErrorReader : Type 0 where
  default status_only messages backup health : ErrorReader

abbrev failed_with : ℕ → Text
failed_with status = codes "Request failed with " ++ show status

abbrev present : List (Option Text) → List Text
present [] = []
present (none ∷ items) = present items
present (some message ∷ items) = if is_empty message then present items else message ∷ present items

abbrev joined : ℕ → List Text → Text
joined status [] = failed_with status
joined status (m ∷ ms) = join (codes " ") (m ∷ ms)

unfoldable pub read_default_error_message : ℕ → Detail → Text
unfolding show
read_default_error_message status (Detail.said message) = message
read_default_error_message status Detail.missing = failed_with status
read_default_error_message status (Detail.listed items) = failed_with status

unfoldable pub read_auth_error_message : ℕ → Detail → Text
unfolding show join
read_auth_error_message status (Detail.said message) = message
read_auth_error_message status Detail.missing = failed_with status
read_auth_error_message status (Detail.listed items) = joined status (present items)

unfoldable pub read_backup_error_message : ℕ → Detail → Text
unfolding show
read_backup_error_message status (Detail.said message) = message
read_backup_error_message status Detail.missing = failed_with status
read_backup_error_message status (Detail.listed items) = codes "Backup file is not valid."

abbrev pub read_error_message : ErrorReader → ℕ → Detail → Text
read_error_message ErrorReader.default status detail = read_default_error_message status detail
read_error_message ErrorReader.status_only status detail = failed_with status
read_error_message ErrorReader.messages status detail = read_auth_error_message status detail
read_error_message ErrorReader.backup status detail = read_backup_error_message status detail
read_error_message ErrorReader.health status detail =
    codes "Health check failed with " ++ show status

-- `RequestJsonOptions`; `creates_auth_error` says whether `createUnauthorizedError` is given, which
-- is an `AuthError` in each call.
pub record RequestJsonOptions : Type 0 where
  pub reader : ErrorReader
  pub creates_auth_error : Bool
  pub includes_content_type : Bool
  pub notifies_unauthorized : Bool

abbrev shown_type : Option Text → Text
shown_type none = codes "unknown content type"
shown_type (some type) = if is_empty type then codes "unknown content type" else type

module _ {ℓ} {A : Type ℓ} where
  unfoldable pub is_cloudflare_access_redirect : Response A → Bool
  unfolding includes to_lower
  is_cloudflare_access_redirect response =
      response.redirected
      && (includes (to_lower response.url) (codes "/cdn-cgi/access/login")
          || includes (to_lower response.url) (codes ".cloudflareaccess.com/"))

  -- `response.ok`
  abbrev pub is_ok : Response A → Bool
  is_ok response = leb 200 response.status && leb response.status 299

  abbrev pub is_json : Response A → Bool
  is_json response =
      includes (to_lower (or_else response.content_type [])) (codes "application/json")

  abbrev pub read_body : Option A → Outcome A
  read_body none = Outcome.throws Failure.broken
  read_body (some a) = Outcome.value a

  unfoldable pub parse_json_response : Response A → Outcome A
  unfolding includes to_lower
  parse_json_response response =
      if is_json response
      then read_body response.body
      else Outcome.throws (
          Failure.error (
            codes "Expected JSON response from backend, received "
            ++ shown_type response.content_type))

  abbrev pub plain : Outcome A → Exchange A
  plain outcome = record { outcome = outcome; expired = none }

  abbrev pub answer_of : Text → RequestJsonOptions → Response A → Exchange A
  answer_of path options response =
      if options.notifies_unauthorized && is_cloudflare_access_redirect response
      then record {
        outcome = Outcome.throws (Failure.error (codes "Cloudflare Access session expired"));
        expired = some (ExpiredKind.cloudflare_access, path);
      }
      else if (response.status == 401) && options.creates_auth_error
      then record {
        outcome = Outcome.throws (
            Failure.auth_error (read_error_message options.reader response.status response.detail));
        expired =
            if options.notifies_unauthorized then some (ExpiredKind.application, path) else none;
      }
      else if not (is_ok response)
      then plain (
          Outcome.throws
            (Failure.error (read_error_message options.reader response.status response.detail)))
      else if response.status == 204
      then plain Outcome.empty
      else plain (parse_json_response response)

  -- `none` is a `fetch` that fails.
  unfoldable pub request_json : Text → RequestJsonOptions → Option (Response A) → Exchange A
  unfolding is_cloudflare_access_redirect parse_json_response
  request_json path options none = plain (Outcome.throws Failure.broken)
  request_json path options (some response) = answer_of path options response
