-- ===== src/Account/SignIn.antt =====
-- `handleAuthSubmit` of frontend/src/App.tsx, a function up to each request, and the load of the user
-- whose token the browser kept.
use task_calendar.Base.{Bool, true, false, Option, none, some, []}
use task_calendar.Base.Text.{Text, codes, trim}
use task_calendar.Account.{Account, AuthMode, handle_auth_expired}
use task_calendar.Api.{Outcome}
use task_calendar.Api.Answers.{AuthUser}
use task_calendar.Api.Calls.Accounts.{AuthCredentials, login_answered}
use task_calendar.Session.{Reply, message_or}
use task_calendar.Storage.{LocalStorage}

-- The first request: with these credentials the user registers, or signs in at once.
unfoldable pub handle_auth_submit : Account → Account × AuthMode × AuthCredentials
unfolding trim
handle_auth_submit a = (
  record a { auth_error = none; is_submitting = true },
  a.auth_mode,
  record { username = trim a.username; password = a.password },
)

unfoldable pub auth_failed : Option Text → Account → Account
auth_failed error a = record a {
  auth_error = some (message_or (codes "Unable to authenticate") error);
  is_submitting = false;
}

-- After a registration the user signs in with the same credentials.
unfoldable pub registered {ℓ} :
    {A : Type ℓ} → AuthCredentials → Reply A → Account → Account × Option AuthCredentials
unfolding auth_failed
registered credentials (Reply.answered _) a = (a, some credentials)
registered credentials (Reply.refused error) a = (auth_failed error a, none)

abbrev pub signed_in : Option Text → Option (Text × LocalStorage) → Account → Account × Bool
signed_in refusal none a = (auth_failed refusal a, false)
signed_in refusal (some (token, storage)) a =
    (record a { storage = storage; auth_token = some token; username = []; password = [] }, true)

-- The answer of a sign-in, and whether the request for the user follows. `refusal` is the message of
-- a store that does not take the token.
unfoldable pub sign_in_answered : Option Text → Reply Text → Account → Account × Bool
unfolding login_answered auth_failed
sign_in_answered refusal (Reply.answered access_token) a =
    signed_in refusal (login_answered (Outcome.value access_token) a.storage) a
sign_in_answered refusal (Reply.refused error) a = (auth_failed error a, false)

unfoldable pub submit_user_answered : Reply AuthUser → Account → Account
unfolding auth_failed
submit_user_answered (Reply.answered user) a = record a {
  current_user = some user;
  is_submitting = false;
}
submit_user_answered (Reply.refused error) a = auth_failed error a

-- The answer to the request that each new token leads to: a user, an `AuthError`, or another error.
pub data UserAnswer : Type 0 where
  user : AuthUser → UserAnswer
  unauthorized : UserAnswer
  failed : Option Text → UserAnswer

unfoldable pub user_answered : UserAnswer → Account → Option Account
unfolding handle_auth_expired
user_answered (UserAnswer.user row) a = some (record a { current_user = some row })
user_answered UserAnswer.unauthorized a = handle_auth_expired a
user_answered (UserAnswer.failed error) a =
    some (record a { auth_error = some (message_or (codes "Unable to load current user") error) })
