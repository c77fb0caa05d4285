-- ===== src/Accounts/Tokens.antt =====
-- The one-time tokens of app/services/user_service.py: `create_verification_token`, `verify_email` and
-- `send_verification_email`, and for passwords `create_password_reset_token` and `verify_reset_token`.
-- `now` is what the clock reads, in seconds, `token` the random text of 64 characters.
pub mod Table
pub mod View
use fastapi_auth_service.Prelude.{
  ℕ, ◌+◌, ◌*◌, Bool, true, false, not, ◌&&◌, Option, none, some, ◌∷◌, ◌++◌, [], ◌==◌, ltb, select,
  update_where, if◌then◌else◌,
}
use fastapi_auth_service.Db.Schema.{Text, User, Token, Db}
use fastapi_auth_service.Db.Tables.{set_user}
use fastapi_auth_service.Db.Session.{
  http, sqlalchemy_error, email_to, Result, Exec, pure, raise, lift, ◌>>=◌, ◌>>◌, query, modify,
  call, commit, refresh, rollback, try_except, publish, scalar_one_or_none,
}
use fastapi_auth_service.Accounts.{get_user_by_id, get_user_by_email, rollback_and_500}

abbrev pub hours : ℕ → ℕ
hours n = n * 3600

abbrev pub is_live_token : Text → Token → Bool
is_live_token token r = r.token == token && not r.used

-- `token_record.used = True`.
abbrev pub use_token : Token → Token
use_token r = record r { used = true }

abbrev pub use_verification_token : Text → Db → Db
use_verification_token token d = record d {
  verification_tokens = update_where (λ r. r.token == token) use_token d.verification_tokens;
}

abbrev pub use_reset_token : Text → Db → Db
use_reset_token token d = record d {
  reset_tokens = update_where (λ r. r.token == token) use_token d.reset_tokens;
}

-- The raw `DELETE FROM email_verification_tokens WHERE user_id = … AND used = FALSE`.
abbrev pub delete_unused_tokens : ℕ → Db → Db
delete_unused_tokens user_id d = record d {
  verification_tokens =
      select (λ r. not (r.user_id == user_id && not r.used)) d.verification_tokens;
}

abbrev pub add_verification_token : Token → Db → Db
add_verification_token r d = record d { verification_tokens = d.verification_tokens ++ r ∷ [] }

abbrev pub mark_verified : User → User
mark_verified u = record u { is_verified = true }

module _ (now : ℕ) (token : Text) where
  unfoldable pub issue_token : ℕ → Option User → Exec Text
  issue_token user_id none = raise (http 404)
  issue_token user_id (some user) = do
    call
    modify (delete_unused_tokens user_id)
    modify (
        add_verification_token
          (record { token = token; user_id = user_id; expires_at = now + hours 24; used = false }))
    commit
    pure token

  unfoldable pub create_verification_token : ℕ → Exec Text
  unfolding issue_token rollback_and_500
  create_verification_token user_id =
      try_except
        (do
          rows ← query (λ d. select (λ u. u.id == user_id) d.users)
          found ← scalar_one_or_none rows
          issue_token user_id found)
        rollback_and_500

  -- `mail` is what building and queueing the message does.
  unfoldable pub send_verification_email : Result (Unit {0}) → User → Exec Bool
  unfolding create_verification_token
  send_verification_email mail user =
      try_except
        (do create_verification_token user.id; lift mail; publish (email_to user.id); pure true)
        (λ e. do rollback; pure false)

unfoldable pub verify_user : Token → Option User → Exec (Bool × Option User)
verify_user record_of none = pure (false, none)
verify_user record_of (some user) = do
  modify (set_user user.id mark_verified)
  modify (use_verification_token record_of.token)
  commit
  refresh
  pure (true, some (mark_verified user))

module _ (now : ℕ) where
  unfoldable pub verify_found : Option Token → Exec (Bool × Option User)
  unfolding verify_user
  verify_found none = pure (false, none)
  verify_found (some r) = if ltb r.expires_at now then pure (false, none) else do
    rows ← query (λ d. select (λ u. u.id == r.user_id) d.users)
    found ← scalar_one_or_none rows
    verify_user r found

  unfoldable pub verify_email : Text → Exec (Bool × Option User)
  unfolding verify_found rollback_and_500
  verify_email token =
      try_except
        (do
          rows ← query (λ d. select (is_live_token token) d.verification_tokens)
          found ← scalar_one_or_none rows
          verify_found found)
        rollback_and_500

  unfoldable pub redeem_reset_token : Option Token → Exec ℕ
  redeem_reset_token none = raise (http 400)
  redeem_reset_token (some r) =
      if ltb r.expires_at now
      then raise (http 400)
      else do modify (use_reset_token r.token); commit; pure r.user_id

  unfoldable pub verify_reset_token : Text → Exec ℕ
  unfolding redeem_reset_token
  verify_reset_token token = do
    rows ← query (λ d. select (is_live_token token) d.reset_tokens)
    found ← scalar_one_or_none rows
    redeem_reset_token found

-- The columns that the `UPDATE` names are not columns of `users`, and SQLAlchemy raises before it
-- sends the statement.
unfoldable pub create_reset_for : Option User → Exec Text
unfolding rollback_and_500
create_reset_for none = raise (http 404)
create_reset_for (some user) = try_except (raise sqlalchemy_error) rollback_and_500

unfoldable pub create_password_reset_token : Text → Exec Text
unfolding create_reset_for get_user_by_email
create_password_reset_token email = do found ← get_user_by_email email; create_reset_for found
