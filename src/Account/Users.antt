-- ===== src/Account/Users.antt =====
-- The password, the deletion of the account, and the users that an administrator sees,
-- frontend/src/App.tsx.
use task_calendar.Base.{
  Bool, true, false, not, Option, none, some, List, [], or_else, if◌then◌else◌,
}
use task_calendar.Base.Text.{Text, codes, text_eq, trim, is_empty}
use task_calendar.Account.{Account, handle_logout}
use task_calendar.Api.Answers.{AdminUser}
use task_calendar.Api.Calls.Accounts.{ChangePasswordInput, DeleteAccountInput}
use task_calendar.Prefs.{clear_stored_user_preferences}
use task_calendar.Session.{Reply, message_or}

-- `user.email?.trim() || user.username.trim() || user.id`
unfoldable pub get_admin_user_display_name : AdminUser → Text
unfolding trim
get_admin_user_display_name user =
    let email = trim (or_else user.email []) in
    let username = trim user.username in
    if not (is_empty email) then email else if not (is_empty username) then username else user.id

unfoldable pub handle_save_password_change : Account → Account × Option ChangePasswordInput
unfolding text_eq
handle_save_password_change a =
    if not (text_eq a.password_form.new_password a.password_form.confirm_new_password)
    then (
      record a {
        password_form = record a.password_form {
          error = some (codes "New passwords do not match.");
          success = none;
        };
      },
      none,
    )
    else (
      record a {
        password_form = record a.password_form { error = none; success = none; is_changing = true };
      },
      some (record {
        current_password = a.password_form.current_password;
        new_password = a.password_form.new_password;
        confirm_new_password = a.password_form.confirm_new_password;
      }),
    )

unfoldable pub handle_password_answered : Reply Text → Account → Account
handle_password_answered (Reply.answered message) a = record a {
  password_form = record a.password_form {
    success = some message;
    current_password = [];
    new_password = [];
    confirm_new_password = [];
    is_changing = false;
  };
}
handle_password_answered (Reply.refused error) a = record a {
  password_form = record a.password_form {
    error = some (message_or (codes "Unable to change password") error);
    is_changing = false;
  };
}

unfoldable pub handle_delete_account : Account → Account × Option DeleteAccountInput
unfolding text_eq
handle_delete_account a =
    if not (text_eq a.delete_form.confirmation (codes "DELETE"))
    then (
      record a {
        delete_form = record a.delete_form { error = some (codes "Type DELETE to continue.") };
      },
      none,
    )
    else (
      record a { delete_form = record a.delete_form { error = none; is_deleting = true } },
      some (record { confirmation = a.delete_form.confirmation }),
    )

abbrev delete_failed : Option Text → Account → Account
delete_failed error a = record a {
  delete_form = record a.delete_form {
    error = some (message_or (codes "Unable to delete account") error);
    is_deleting = false;
  };
}

abbrev pub left : Option Text → Option Account → Account → Account
left refusal none a = delete_failed refusal a
left refusal (some out) a = record out {
  delete_form = record out.delete_form { is_deleting = false };
}

-- `refusal` is the message of a store that does not let go of the token.
unfoldable pub handle_delete_account_answered {ℓ} :
    {A : Type ℓ} → Option Text → Reply A → Account → Account
unfolding clear_stored_user_preferences handle_logout
handle_delete_account_answered refusal (Reply.answered _) a =
    let cleared = record a { storage = clear_stored_user_preferences a.storage } in
    left refusal (handle_logout cleared) cleared
handle_delete_account_answered refusal (Reply.refused error) a = delete_failed error a

unfoldable pub refresh_admin_users : Account → Account
refresh_admin_users a = record a { admin = record a.admin { is_loading = true; error = none } }

unfoldable pub admin_users_answered : Reply (List AdminUser) → Account → Account
admin_users_answered (Reply.answered users) a = record a {
  admin = record a.admin { users = users; is_loading = false };
}
admin_users_answered (Reply.refused error) a = record a {
  admin = record a.admin {
    error = some (message_or (codes "Unable to load users") error);
    is_loading = false;
  };
}

unfoldable pub open_delete_admin_user_confirm : AdminUser → Account → Account
open_delete_admin_user_confirm user a = record a {
  admin = record a.admin { error = none; candidate = some user };
}

abbrev is_deleting_user : Option Text → Bool
is_deleting_user none = false
is_deleting_user (some id) = not (is_empty id)

unfoldable pub close_delete_admin_user_confirm : Account → Account
close_delete_admin_user_confirm a =
    if is_deleting_user a.admin.deleting_id
    then a
    else record a { admin = record a.admin { candidate = none } }

abbrev pub deleting_user : Option AdminUser → Account → Account × Option Text
deleting_user none a = (a, none)
deleting_user (some user) a =
    (record a { admin = record a.admin { error = none; deleting_id = some user.id } }, some user.id)

-- The id of the user to delete; `none` is no request.
unfoldable pub handle_delete_admin_user : Account → Account × Option Text
handle_delete_admin_user a = deleting_user a.admin.candidate a

-- A deletion is followed by the request for the users, whose answer ends it.
unfoldable pub admin_user_deleted {ℓ} : {A : Type ℓ} → Reply A → Account → Account
unfolding refresh_admin_users
admin_user_deleted (Reply.answered _) a =
    refresh_admin_users (record a { admin = record a.admin { candidate = none } })
admin_user_deleted (Reply.refused error) a = record a {
  admin = record a.admin {
    error = some (message_or (codes "Unable to delete user") error);
    deleting_id = none;
  };
}

unfoldable pub admin_users_answered_after_delete : Reply (List AdminUser) → Account → Account
unfolding admin_users_answered
admin_users_answered_after_delete answer a =
    let listed = admin_users_answered answer a in
    record listed { admin = record listed.admin { deleting_id = none } }
