-- ===== src/Accounts/Routes/Emails.antt =====
-- app/routers/auth/email_verification.py and email_management.py.
pub mod Same
use fastapi_auth_service.Prelude.{
  ℕ, Bool, true, false, not, Option, none, some, select, ◌==◌, ltb, if◌then◌else◌,
}
use fastapi_auth_service.Db.Schema.{Text, User, Token, EmailChangeRequest}
use fastapi_auth_service.Db.Tables.{set_user}
use fastapi_auth_service.Db.Session.{
  Exn, http, value_error, type_error, Result, ok, err, Exec, pure, raise, lift, ◌>>=◌, ◌>>◌,
  try_except, query, modify, commit, scalar_one_or_none,
}
use fastapi_auth_service.Accounts.{Bcrypt, get_user_by_email}
use fastapi_auth_service.Accounts.Users.{is_other}
use fastapi_auth_service.Accounts.Tokens.{
  is_live_token, mark_verified, use_verification_token, send_verification_email,
}
use fastapi_auth_service.Accounts.EmailChange.{Message, verify_email_change}
use fastapi_auth_service.Accounts.Routes.{Context, http_or, send_mail, session_token, active_user}

-- What `resend_verification_email` answers.
pub data Resent : Type 0 where
  if_registered already_verified resent : Resent

-- `verify_password(…, str(hashed_password))`: the text `None` is no hash, and `checkpw` raises a
-- `ValueError`. A `TypeError` is answered with HTTP 401.
unfoldable pub check_current_password : Bcrypt → Text → Option Text → Result (Unit {0})
check_current_password c plain none = err value_error
check_current_password c plain (some hashed) = elim (c.checkpw plain hashed) [
  | ok same ↦ if same then ok tt else err (http 401)
  | err type_error ↦ err (http 401)
  | err e ↦ err e
]

module _ (x : Context) where
  -- The route's own verification; the token of a login follows.
  unfoldable pub verify_owner : Token → Option User → Exec Text
  unfolding send_mail
  verify_owner r none = raise (http 400)
  verify_owner r (some user) = do
    modify (set_user user.id mark_verified)
    modify (use_verification_token r.token)
    commit
    try_except (send_mail x.mail user.id) (λ e. pure tt)
    pure (session_token x (mark_verified user))

  unfoldable pub verify_live : Option Token → Exec Text
  unfolding verify_owner
  verify_live none = raise (http 400)
  verify_live (some r) = if ltb r.expires_at x.now then raise (http 400) else do
    rows ← query (λ d. select (λ u. u.id == r.user_id) d.users)
    found ← scalar_one_or_none rows
    verify_owner r found

  unfoldable pub verify_email_route : Text → Exec Text
  unfolding verify_live http_or
  verify_email_route token =
      try_except
        (do
          rows ← query (λ d. select (is_live_token token) d.verification_tokens)
          found ← scalar_one_or_none rows
          verify_live found)
        (http_or 400)

  unfoldable pub resend_unverified : User → Bool → Exec Resent
  unfolding send_verification_email
  resend_unverified user true = pure already_verified
  resend_unverified user false = do send_verification_email x.now x.token x.mail user; pure resent

  unfoldable pub resend_found : Option User → Exec Resent
  unfolding resend_unverified
  resend_found none = pure if_registered
  resend_found (some user) = resend_unverified user user.is_verified

  unfoldable pub resend_verification_email : Text → Exec Resent
  unfolding resend_found get_user_by_email
  resend_verification_email email =
      try_except (do found ← get_user_by_email email; resend_found found) (λ e. pure if_registered)

  -- The call of `create_email_change_request` lacks an argument: Python raises a `TypeError`.
  unfoldable pub change_email_route : Text → Text → Text → Exec (Unit {0})
  unfolding active_user check_current_password get_user_by_email http_or
  change_email_route bearer current_password new_email = do
    current_user ← active_user x bearer
    try_except
        (do
          lift (check_current_password x.bcrypt current_password current_user.hashed_password)
          existing ← get_user_by_email new_email
          if is_other current_user.id existing then raise (http 400) else raise type_error)
        (http_or 500)

  unfoldable pub confirm_change : User → Option EmailChangeRequest → Exec (Unit {0})
  unfolding send_mail
  confirm_change user none = pure tt
  confirm_change user (some r) = send_mail x.mail user.id

  unfoldable pub changed_or_400 : Bool × Message × Option User → Result User
  changed_or_400 (true, message, some user) = ok user
  changed_or_400 (_, message, _) = err (http 400)

  unfoldable pub verify_email_change_route : Text → Exec Text
  unfolding verify_email_change changed_or_400 confirm_change http_or
  verify_email_change_route token =
      try_except
        (do
          answer ← verify_email_change x.now token
          user ← lift (changed_or_400 answer)
          rows ← query (λ d. select (λ r. r.token == token) d.email_change_requests)
          found ← scalar_one_or_none rows
          confirm_change user found
          pure (session_token x user))
        (http_or 400)
