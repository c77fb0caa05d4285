-- ===== src/Accounts/Users.antt =====
-- `UserService.create_user`, `authenticate_user`, `update_user_email`, `delete_user` and
-- `update_user_password`, and `reset_password` (app/services/user_service.py).
use fastapi_auth_service.Prelude.{
  ℕ, Bool, true, false, not, ◌&&◌, ◌||◌, Option, none, some, ◌==◌, select, any, if◌then◌else◌,
}
use fastapi_auth_service.Db.Schema.{Text, User, AuthType, AccountStatus, Db, truthy}
use fastapi_auth_service.Db.Tables.{set_user, add_user}
use fastapi_auth_service.Db.Session.{
  http, integrity_error, Result, ok, err, Exec, pure, raise, lift, ◌>>=◌, ◌>>◌, gets, modify, call,
  commit, refresh, try_except,
}
use fastapi_auth_service.Accounts.{
  Bcrypt, or_401, get_user_by_id, get_user_by_email, verify_password, rollback_and_400,
  rollback_and_500,
}

abbrev pub is_google : AuthType → Bool
is_google AuthType.google = true
is_google _ = false

abbrev pub negated : Result Bool → Result Bool
negated (ok b) = ok (not b)
negated (err e) = err e

-- Whether a user has the id of another: `existing.id != user.id`, where a row was found.
abbrev pub is_other : ℕ → Option User → Bool
is_other user_id none = false
is_other user_id (some existing) = not (existing.id == user_id)

abbrev pub with_email : Text → User → User
with_email new_email u = record u { email = new_email; is_verified = false }

abbrev pub with_password : Text → User → User
with_password hashed u = record u { hashed_password = some hashed }

-- A row that another table refers to by a foreign key cannot be deleted. The credit row, the
-- transactions and the subscriptions of a user are deleted with the user.
abbrev pub is_referenced : ℕ → Db → Bool
is_referenced user_id d =
    any (λ t. t.user_id == user_id) d.verification_tokens
    || any (λ t. t.user_id == user_id) d.reset_tokens
    || any (λ r. r.user_id == user_id) d.email_change_requests

abbrev pub without_user : ℕ → Db → Db
without_user user_id d = record d {
  users = select (λ u. not (u.id == user_id)) d.users;
  credits = select (λ c. not (c.user_id == user_id)) d.credits;
  transactions = select (λ t. not (t.user_id == user_id)) d.transactions;
  subscriptions = select (λ s. not (s.user_id == user_id)) d.subscriptions;
}

unfoldable pub change_email : Text → User → Exec User
unfolding rollback_and_400
change_email new_email user =
    try_except
      (do
        modify (set_user user.id (with_email new_email))
        commit
        refresh
        pure (with_email new_email user))
      rollback_and_400

-- The `DELETE` is sent by the flush of the commit.
unfoldable pub delete_found : User → Exec Bool
unfolding rollback_and_500
delete_found user =
    try_except
      (do
        call
        referenced ← gets (is_referenced user.id)
        modify (without_user user.id)
        if referenced then call >> raise integrity_error else commit
        pure true)
      rollback_and_500

module _ (c : Bcrypt) where
  unfoldable pub create_user : Text → Text → Bool → Bool → Exec User
  unfolding rollback_and_400
  create_user email plain is_admin auto_verify =
      try_except
        (do
          hashed ← lift (c.hashpw plain)
          id ← gets (λ d. d.next_id)
          let user : User = record {
            id = id;
            email = email;
            hashed_password = some hashed;
            google_id = none;
            auth_type = AuthType.password;
            is_admin = is_admin;
            is_verified = auto_verify;
            stripe_customer_id = none;
            account_status = AccountStatus.active;
            has_consumed_initial_trial = false;
          }
          modify (add_user user)
          commit
          refresh
          pure user)
        rollback_and_400

  -- `user.hashed_password and not verify_password(password, user.hashed_password)`.
  unfoldable pub is_wrong_password : Text → User → Result Bool
  unfolding verify_password
  is_wrong_password plain user =
      if truthy user.hashed_password
      then negated (verify_password c plain user.hashed_password)
      else ok false

  unfoldable pub authenticate_found : Text → Option User → Exec (Option User)
  unfolding is_wrong_password
  authenticate_found plain none = pure none
  authenticate_found plain (some user) = do
    wrong ← lift (is_wrong_password plain user)
    pure (
        if wrong || not (truthy user.hashed_password) && is_google user.auth_type
        then none
        else some user)

  unfoldable pub authenticate_user : Text → Text → Exec (Option User)
  unfolding get_user_by_email authenticate_found
  authenticate_user email plain = do found ← get_user_by_email email; authenticate_found plain found

  unfoldable pub update_user_email : Text → Text → Text → Exec User
  unfolding authenticate_user or_401 get_user_by_email change_email
  update_user_email email current_password new_email = do
    found ← authenticate_user email current_password
    user ← lift (or_401 found)
    existing ← get_user_by_email new_email
    if is_other user.id existing then raise (http 400) else change_email new_email user

  unfoldable pub delete_user : Text → Text → Exec Bool
  unfolding authenticate_user or_401 delete_found
  delete_user email plain = do
    found ← authenticate_user email plain
    user ← lift (or_401 found)
    delete_found user

  unfoldable pub change_password : Text → User → Bool → Exec Bool
  change_password new_password user true = raise (http 400)
  change_password new_password user false = do
    hashed ← lift (c.hashpw new_password)
    modify (set_user user.id (with_password hashed))
    commit
    refresh
    pure true

  unfoldable pub update_user_password : Text → Text → Text → Exec Bool
  unfolding authenticate_user or_401 verify_password change_password
  update_user_password email current_password new_password = do
    found ← authenticate_user email current_password
    user ← lift (or_401 found)
    same ← lift (verify_password c new_password user.hashed_password)
    change_password new_password user same

  unfoldable pub reset_found : Text → Option User → Exec Bool
  reset_found new_password none = raise (http 404)
  reset_found new_password (some user) = do
    hashed ← lift (c.hashpw new_password)
    modify (set_user user.id (with_password hashed))
    commit
    refresh
    pure true

  unfoldable pub reset_password : ℕ → Text → Exec Bool
  unfolding get_user_by_id reset_found
  reset_password user_id new_password = do
    found ← get_user_by_id user_id
    reset_found new_password found
