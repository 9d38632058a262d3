-- ===== src/Account/Steps/Token.antt =====
-- The token in the program's state is the one that the browser keeps.
use mathlib.Core.Path.{subst}
use task_calendar.Base.{
  true, false, Option, none, some, some_inj, ◌≡◌, refl, sym, ap, ◌∙◌, arith, Bool-cases, inl, inr,
  not,
}
use task_calendar.Base.Ids.{contains}
use task_calendar.Base.Json.{Json, JsonText}
use task_calendar.Base.Text.{Text, codes, text_eq, text_eq_iff}
use task_calendar.Account.{
  Account, leaving, clear_stored_auth_token, handle_auth_expired, handle_session_expired,
  handle_logout, reset_app_data, reset_account_forms, close_settings_panels,
}
use task_calendar.Account.Backup.{
  handle_confirm_backup_import, backup_import_answered, payload_read, importing,
}
use task_calendar.Account.Settings.{
  google_status_answered, save_webhook_settings, handle_save_webhook_answered,
}
use task_calendar.Account.SignIn.{
  UserAnswer, handle_auth_submit, registered, auth_failed, sign_in_answered, signed_in,
  submit_user_answered, user_answered,
}
use task_calendar.Account.Steps.{Step, Reaches}
use task_calendar.Account.Users.{
  handle_save_password_change, handle_password_answered, handle_delete_account,
  handle_delete_account_answered, left, deleting_user, handle_delete_admin_user, admin_user_deleted,
  admin_users_answered, refresh_admin_users,
}
use task_calendar.Api.{Outcome, ExpiredKind}
use task_calendar.Api.Answers.{AdminUser}
use task_calendar.Api.Calls.{get_stored_auth_token, store_auth_token}
use task_calendar.Api.Calls.Accounts.{login_answered}
use task_calendar.Api.Calls.Authorized.{kept_token}
use task_calendar.Prefs.{
  preference_keys, clear_stored_user_preferences, save_theme_mode, save_sidebar_open,
  save_sidebar_width, save_working_hours, save_show_completed_tasks, save_unscheduled_order,
}
use task_calendar.Prefs.Initial.{Preferences, save_preferences}
use task_calendar.Session.{Reply}
use task_calendar.Storage.{LocalStorage, Item, get_item}
use task_calendar.Storage.Laws.{
  get_item-set_item_other, get_item-remove_items_other, entry-delete_entry,
}

abbrev token_key : Text
token_key = codes "calendar-auth-token"

-- The browser's store can be read, and holds the token of the program's state, or none for none.
abbrev pub IsSynced : Account → Type 0
IsSynced a = get_stored_auth_token a.storage ≡ some a.auth_token

-- The token by what `getItem` gives.
abbrev token_of : Item → Option (Option Text)
token_of Item.throws = none
token_of Item.undefined = none
token_of (Item.item o) = some o

stored-get_item : (s : LocalStorage) → get_stored_auth_token s ≡ token_of (get_item s token_key)
unfolding get_stored_auth_token get_item
stored-get_item LocalStorage.missing = refl
stored-get_item LocalStorage.blocked = refl
stored-get_item (LocalStorage.store full items) = refl

stored_same :
    (s t : LocalStorage)
    → get_item s token_key ≡ get_item t token_key
    → get_stored_auth_token s ≡ get_stored_auth_token t
stored_same s t e = stored-get_item s ∙ ap token_of e ∙ sym (stored-get_item t)

save_preferences-token :
    (json : JsonText) (p : Preferences) (s : LocalStorage)
    → get_item (save_preferences json p s) token_key ≡ get_item s token_key
unfolding save_theme_mode save_sidebar_open save_sidebar_width save_working_hours
    save_show_completed_tasks save_unscheduled_order text_eq
save_preferences-token json p s =
    get_item-set_item_other _ _ _ _ refl
    ∙ get_item-set_item_other _ _ _ _ refl
    ∙ get_item-set_item_other _ _ _ _ refl
    ∙ get_item-set_item_other _ _ _ _ refl
    ∙ get_item-set_item_other _ _ _ _ refl
    ∙ get_item-set_item_other _ _ _ _ refl

-- A way out of the session leaves no token.
cleared :
    (s t : LocalStorage) → clear_stored_auth_token s ≡ some t → get_stored_auth_token t ≡ some none
unfolding clear_stored_auth_token get_stored_auth_token
cleared LocalStorage.missing t h = absurd (ground (arith, h))
cleared LocalStorage.blocked t h = absurd (ground (arith, h))
cleared (LocalStorage.store full items) t h =
    subst (λ l. get_stored_auth_token l ≡ some none) (some_inj h)
      (ap (λ o. some o)
        (rw (entry-delete_entry token_key items token_key, (text_eq_iff token_key token_key).1 refl)
          refl))

left-IsSynced :
    (out : LocalStorage → Account) (s : LocalStorage) (o : Option LocalStorage) (b : Account)
    → ((t : LocalStorage) → ((out t).storage ≡ t) × ((out t).auth_token ≡ none))
    → clear_stored_auth_token s ≡ o
    → leaving out o ≡ some b
    → IsSynced b
left-IsSynced out s none b f e h = absurd (ground (arith, h))
left-IsSynced out s (some t) b f e h =
    subst IsSynced (some_inj h)
      (ap get_stored_auth_token (f t).0 ∙ cleared s t e ∙ ap (λ o. some o) (sym (f t).1))

logout-IsSynced : (a b : Account) → handle_logout a ≡ some b → IsSynced b
unfolding handle_logout reset_app_data reset_account_forms close_settings_panels
logout-IsSynced a b h = left-IsSynced _ a.storage _ b (λ t. (refl, refl)) refl h

expired-IsSynced : (a b : Account) → handle_auth_expired a ≡ some b → IsSynced b
unfolding handle_auth_expired reset_app_data reset_account_forms close_settings_panels
expired-IsSynced a b h = left-IsSynced _ a.storage _ b (λ t. (refl, refl)) refl h

session_expired-IsSynced :
    (kind : ExpiredKind) (a b : Account)
    → IsSynced a
    → handle_session_expired kind a ≡ some b
    → IsSynced b
unfolding handle_session_expired
session_expired-IsSynced ExpiredKind.cloudflare_access a b k h = subst IsSynced (some_inj h) k
session_expired-IsSynced ExpiredKind.application a b k h = expired-IsSynced a b h

user-IsSynced :
    (answer : UserAnswer) (a b : Account)
    → IsSynced a
    → user_answered answer a ≡ some b
    → IsSynced b
unfolding user_answered
user-IsSynced (UserAnswer.user row) a b k h = subst IsSynced (some_inj h) k
user-IsSynced UserAnswer.unauthorized a b k h = expired-IsSynced a b h
user-IsSynced (UserAnswer.failed error) a b k h = subst IsSynced (some_inj h) k

own_token :
    (access token : Text) (storage kept : LocalStorage)
    → login_answered (Outcome.value access) storage ≡ some (token, kept)
    → access ≡ token
unfolding login_answered store_auth_token
own_token access token LocalStorage.missing kept h = absurd (ground (arith, h))
own_token access token LocalStorage.blocked kept h = absurd (ground (arith, h))
own_token access token (LocalStorage.store true items) kept h = absurd (ground (arith, h))
own_token access token (LocalStorage.store false items) kept h = ap (λ q. q.0) (some_inj h)

cleared_prefs-token :
    (s : LocalStorage)
    → get_stored_auth_token (clear_stored_user_preferences s) ≡ get_stored_auth_token s
unfolding clear_stored_user_preferences contains text_eq
cleared_prefs-token s =
    stored_same _ s (get_item-remove_items_other preference_keys s token_key refl)

sign_in-IsSynced :
    (refusal : Option Text) (reply : Reply Text) (a : Account)
    → IsSynced a
    → IsSynced (sign_in_answered refusal reply a).0
unfolding sign_in_answered auth_failed
sign_in-IsSynced refusal (Reply.refused error) a k = k
sign_in-IsSynced refusal (Reply.answered access) a k =
    kept (login_answered (Outcome.value access) a.storage) refl
  where
    kept :
        (o : Option (Text × LocalStorage))
        → login_answered (Outcome.value access) a.storage ≡ o
        → IsSynced (signed_in refusal o a).0
    kept none e = k
    kept (some (token, storage)) e =
        kept_token access token a.storage storage e
        ∙ ap (λ t. some (some t)) (own_token access token a.storage storage e)

account_deleted-IsSynced :
    (refusal : Option Text) (reply : Reply Text) (a : Account)
    → IsSynced a
    → IsSynced (handle_delete_account_answered refusal reply a)
unfolding handle_delete_account_answered
account_deleted-IsSynced refusal (Reply.refused error) a k = k
account_deleted-IsSynced refusal (Reply.answered _) a k =
    left_or (handle_logout cleared_account) (λ b h. logout-IsSynced cleared_account b h)
  where
    cleared_account : Account
    cleared_account = record a { storage = clear_stored_user_preferences a.storage }

    left_or :
        (o : Option Account)
        → ((b : Account) → o ≡ some b → IsSynced b)
        → IsSynced (left refusal o cleared_account)
    left_or none f = cleared_prefs-token a.storage ∙ k
    left_or (some b) f = f b refl

-- What neither writes to the store nor changes the token.
abbrev IsSame : Account → Account → Type 0
IsSame a b = (b.storage ≡ a.storage) × (b.auth_token ≡ a.auth_token)

same-IsSynced : (a b : Account) → IsSame a b → IsSynced a → IsSynced b
same-IsSynced a b (s, t) k = ap get_stored_auth_token s ∙ k ∙ ap (λ o. some o) (sym t)

password-IsSame : (a : Account) → IsSame a (handle_save_password_change a).0
unfolding handle_save_password_change
password-IsSame a =
    elim (Bool-cases
      (not (text_eq a.password_form.new_password a.password_form.confirm_new_password))) [
        | inl differ ↦ rw differ (refl, refl)
        | inr same ↦ rw same (refl, refl)
      ]

delete-IsSame : (a : Account) → IsSame a (handle_delete_account a).0
unfolding handle_delete_account
delete-IsSame a = elim (Bool-cases (not (text_eq a.delete_form.confirmation (codes "DELETE")))) [
  | inl differ ↦ rw differ (refl, refl)
  | inr same ↦ rw same (refl, refl)
]

delete_user-IsSame :
    (a : Account) (candidate : Option AdminUser) → IsSame a (deleting_user candidate a).0
delete_user-IsSame a none = (refl, refl)
delete_user-IsSame a (some user) = (refl, refl)

import-IsSame :
    (json : JsonText) (a : Account) (file : Option Text)
    → IsSame a (handle_confirm_backup_import json file a).0
unfolding handle_confirm_backup_import
import-IsSame json a none = (refl, refl)
import-IsSame json a (some text) = read_or (json.parse text)
  where
    read_or : (o : Option Json) → IsSame a (payload_read o (importing a)).0
    read_or none = (refl, refl)
    read_or (some payload) = (refl, refl)

Step-IsSynced : (a b : Account) → Step a b → IsSynced a → IsSynced b
unfolding handle_auth_submit registered auth_failed submit_user_answered handle_password_answered
    handle_delete_admin_user admin_user_deleted admin_users_answered refresh_admin_users
    save_webhook_settings handle_save_webhook_answered google_status_answered backup_import_answered
    reset_account_forms close_settings_panels
Step-IsSynced a _ Step.submit k = k
Step-IsSynced a _ (Step.registration credentials (Reply.answered _)) k = k
Step-IsSynced a _ (Step.registration credentials (Reply.refused error)) k = k
Step-IsSynced a _ (Step.sign_in refusal reply) k = sign_in-IsSynced refusal reply a k
Step-IsSynced a _ (Step.sign_in_user (Reply.answered row)) k = k
Step-IsSynced a _ (Step.sign_in_user (Reply.refused error)) k = k
Step-IsSynced a b (Step.user answer h) k = user-IsSynced answer a b k h
Step-IsSynced a b (Step.expired kind h) k = session_expired-IsSynced kind a b k h
Step-IsSynced a b (Step.logout h) k = logout-IsSynced a b h
Step-IsSynced a b Step.change_password k = same-IsSynced a b (password-IsSame a) k
Step-IsSynced a _ (Step.password_changed (Reply.answered message)) k = k
Step-IsSynced a _ (Step.password_changed (Reply.refused error)) k = k
Step-IsSynced a b Step.delete_account k = same-IsSynced a b (delete-IsSame a) k
Step-IsSynced a _ (Step.account_deleted refusal reply) k =
    account_deleted-IsSynced refusal reply a k
Step-IsSynced a b Step.delete_user k = same-IsSynced a b (delete_user-IsSame a a.admin.candidate) k
Step-IsSynced a _ (Step.user_deleted (Reply.answered _)) k = k
Step-IsSynced a _ (Step.user_deleted (Reply.refused error)) k = k
Step-IsSynced a _ (Step.users_listed (Reply.answered users)) k = k
Step-IsSynced a _ (Step.users_listed (Reply.refused error)) k = k
Step-IsSynced a _ Step.save_webhook k = k
Step-IsSynced a _ (Step.webhook_saved closure (Reply.answered saved)) k = k
Step-IsSynced a _ (Step.webhook_saved closure (Reply.refused error)) k = k
Step-IsSynced a _ (Step.google_status (Reply.answered status)) k = k
Step-IsSynced a _ (Step.google_status (Reply.refused error)) k = k
Step-IsSynced a b (Step.import_backup json file) k = same-IsSynced a b (import-IsSame json a file) k
Step-IsSynced a _ (Step.backup_imported (Reply.answered result)) k = k
Step-IsSynced a _ (Step.backup_imported (Reply.refused error)) k = k
Step-IsSynced a _ (Step.save_prefs json p) k =
    stored_same _ a.storage (save_preferences-token json p a.storage) ∙ k

-- When the program starts with the token that the browser keeps, or without one where it keeps none,
-- this stays so whatever happens in the window: the token of its state is the one in the store, also
-- after a sign-in, a session that expires, a deleted account and a way out.
pub Reaches-IsSynced : (a b : Account) → Reaches a b → IsSynced a → IsSynced b
Reaches-IsSynced a _ Reaches.done k = k
Reaches-IsSynced a c (Reaches.next {b} run step) k =
    Step-IsSynced b c step (Reaches-IsSynced a b run k)
