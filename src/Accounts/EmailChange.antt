-- ===== src/Accounts/EmailChange.antt =====
-- `UserService.create_email_change_request` and `verify_email_change` (app/services/user_service.py).
use fastapi_auth_service.Prelude.{
  ℕ, ◌+◌, Bool, true, false, not, ◌&&◌, Option, none, some, ◌∷◌, ◌++◌, [], ◌==◌, ltb, select,
  update_where, if◌then◌else◌,
}
use fastapi_auth_service.Db.Schema.{Text, User, EmailChangeRequest, Db}
use fastapi_auth_service.Db.Tables.{set_user}
use fastapi_auth_service.Db.Session.{
  http, email_to, Result, Exec, pure, raise, lift, ◌>>=◌, ◌>>◌, query, gets, modify, commit,
  refresh, rollback, try_except, publish, scalar_one_or_none,
}
use fastapi_auth_service.Accounts.{get_user_by_id, get_user_by_email, rollback_and_500}
use fastapi_auth_service.Accounts.Users.{is_other}
use fastapi_auth_service.Accounts.Tokens.{hours}

-- The messages that `verify_email_change` returns.
pub data Message : Type 0 where
  invalid_token expired_token user_not_found taken updated unexpected_error : Message

abbrev pub is_open_request : Text → EmailChangeRequest → Bool
is_open_request token r = r.token == token && not r.completed

abbrev pub complete : EmailChangeRequest → EmailChangeRequest
complete r = record r { completed = true }

abbrev pub complete_request : ℕ → Db → Db
complete_request id d = record d {
  email_change_requests = update_where (λ r. r.id == id) complete d.email_change_requests;
}

abbrev pub add_email_change_request : EmailChangeRequest → Db → Db
add_email_change_request r d = record d {
  email_change_requests = d.email_change_requests ++ r ∷ [];
  next_id = d.next_id + 1;
}

-- The new address counts as verified.
abbrev pub with_new_email : Text → User → User
with_new_email new_email u = record u { email = new_email; is_verified = true }

module _ (now : ℕ) (token : Text) (mail : Result (Unit {0})) where
  unfoldable pub send_change_mail : Option User → Exec (Unit {0})
  send_change_mail none = pure tt
  send_change_mail (some user) = do lift mail; publish (email_to user.id)

  unfoldable pub request_email_change : ℕ → Text → Text → Exec (Bool × Option Text)
  unfolding get_user_by_id send_change_mail rollback_and_500
  request_email_change user_id new_email current_email =
      try_except
        (do
          id ← gets (λ d. d.next_id)
          modify (
              add_email_change_request (record {
                id = id;
                user_id = user_id;
                current_email = current_email;
                new_email = new_email;
                token = token;
                expires_at = now + hours 1;
                completed = false;
              }))
          commit
          found ← get_user_by_id user_id
          send_change_mail found
          pure (true, some token))
        rollback_and_500

  unfoldable pub create_email_change_request : ℕ → Text → Text → Exec (Bool × Option Text)
  unfolding get_user_by_email request_email_change
  create_email_change_request user_id new_email current_email = do
    existing ← get_user_by_email new_email
    if is_other user_id existing
        then raise (http 400)
        else request_email_change user_id new_email current_email

-- Whether the address is still free decides; the request is completed either way.
unfoldable pub apply_change : EmailChangeRequest → User → Bool → Exec (Bool × Message × Option User)
apply_change r user true = do modify (complete_request r.id); commit; pure (false, taken, none)
apply_change r user false = do
  modify (set_user user.id (with_new_email r.new_email))
  modify (complete_request r.id)
  commit
  refresh
  pure (true, updated, some (with_new_email r.new_email user))

unfoldable pub change_for : EmailChangeRequest → Option User → Exec (Bool × Message × Option User)
unfolding get_user_by_email apply_change
change_for r none = pure (false, user_not_found, none)
change_for r (some user) = do
  existing ← get_user_by_email r.new_email
  apply_change r user (is_other user.id existing)

module _ (now : ℕ) where
  unfoldable pub change_found : Option EmailChangeRequest → Exec (Bool × Message × Option User)
  unfolding get_user_by_id change_for
  change_found none = pure (false, invalid_token, none)
  change_found (some r) =
      if ltb r.expires_at now
      then pure (false, expired_token, none)
      else do found ← get_user_by_id r.user_id; change_for r found

  unfoldable pub verify_email_change : Text → Exec (Bool × Message × Option User)
  unfolding change_found
  verify_email_change token =
      try_except
        (do
          rows ← query (λ d. select (is_open_request token) d.email_change_requests)
          found ← scalar_one_or_none rows
          change_found found)
        (λ e. do rollback; pure (false, unexpected_error, none))
