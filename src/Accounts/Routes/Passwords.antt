-- ===== src/Accounts/Routes/Passwords.antt =====
-- app/routers/auth/password_management.py.
use fastapi_auth_service.Prelude.{ℕ, Bool, true, false, Option, none, some, select, ◌==◌}
use fastapi_auth_service.Db.Schema.{Text, User}
use fastapi_auth_service.Db.Session.{
  Exn, http, value_error, Exec, pure, raise, ◌>>=◌, ◌>>◌, try_except, query, scalar_one_or_none,
}
use fastapi_auth_service.Accounts.{get_user_by_email}
use fastapi_auth_service.Accounts.Users.{update_user_password, reset_password}
use fastapi_auth_service.Accounts.Tokens.{create_password_reset_token, verify_reset_token}
use fastapi_auth_service.Accounts.Routes.{Context, http_or, send_mail, active_user}

-- `raise HTTPException(status)` unless the test holds.
unfoldable pub demand : Bool → ℕ → Exec (Unit {0})
demand true status = pure tt
demand false status = raise (http status)

-- `except ValueError: 400`, `except HTTPException: raise`, `except Exception: 500`.
unfoldable pub reset_error : {A : Type 0} → Exn → Exec A
unfolding http_or
reset_error value_error = raise (http 400)
reset_error e = http_or 500 e

-- HTTP errors and `ValueError` are answered like a success.
unfoldable pub hide_error : Exn → Exec (Unit {0})
hide_error (http status) = pure tt
hide_error value_error = pure tt
hide_error e = raise e

module _ (x : Context) where
  unfoldable pub mail_found : Option User → Exec (Unit {0})
  unfolding send_mail
  mail_found none = pure tt
  mail_found (some user) = send_mail x.mail user.id

  -- `long_enough` says whether the new password has eight characters.
  unfoldable pub change_password : Text → Text → Text → Bool → Exec (Unit {0})
  unfolding active_user demand update_user_password http_or send_mail
  change_password bearer current_password new_password long_enough = do
    current_user ← active_user x bearer
    try_except
        (do
          demand long_enough 422
          success ← update_user_password x.bcrypt current_user.email current_password new_password
          demand success 500
          try_except (send_mail x.mail current_user.id) (λ e. pure tt))
        (http_or 500)

  unfoldable pub request_password_reset : Text → Exec (Unit {0})
  unfolding create_password_reset_token get_user_by_email mail_found hide_error
  request_password_reset email =
      try_except
        (do
          token ← create_password_reset_token email
          found ← get_user_by_email email
          mail_found found)
        hide_error

  unfoldable pub reset_password_with_token : Text → Text → Exec (Unit {0})
  unfolding verify_reset_token reset_password demand mail_found reset_error
  reset_password_with_token token new_password =
      try_except
        (do
          user_id ← verify_reset_token x.now token
          success ← reset_password x.bcrypt user_id new_password
          demand success 500
          rows ← query (λ d. select (λ u. u.id == user_id) d.users)
          found ← scalar_one_or_none rows
          mail_found found)
        reset_error
