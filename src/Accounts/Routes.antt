-- ===== src/Accounts/Routes.antt =====
-- The routes of app/routers/auth. What a route finds outside the database is a `Context`.
pub mod Login
pub mod Passwords
pub mod Emails
pub mod Social
use fastapi_auth_service.Prelude.{ℕ, Option, some, Bool, if◌then◌else◌}
use fastapi_auth_service.Db.Schema.{Text, User}
use fastapi_auth_service.Db.Session.{
  Exn, http, Result, ok, err, Exec, pure, raise, lift, ◌>>=◌, ◌>>◌, publish, email_to,
}
use fastapi_auth_service.Accounts.{Bcrypt}
use fastapi_auth_service.Accounts.Jwt.{Jose, create_access_token}
use fastapi_auth_service.Accounts.Auth.{get_current_user, get_current_active_user}
use fastapi_auth_service.Accounts.Google.{GoogleApi, claims_of}

-- bcrypt with the salt of this request, the signing of JWTs, Google's answers, the clock in seconds,
-- the next random token, what queueing a message does, and the setting
-- `access_token_expire_minutes`.
pub record Context : Type 0 where
  pub bcrypt : Bcrypt
  pub jose : Jose
  pub google : GoogleApi
  pub now : ℕ
  pub token : Text
  pub mail : Result (Unit {0})
  pub minutes : ℕ

-- `except HTTPException: raise`, and HTTP `status` for any other exception.
unfoldable pub http_or : {A : Type 0} → ℕ → Exn → Exec A
http_or status (http code) = raise (http code)
http_or status e = raise (http status)

-- A message of `EmailService`.
unfoldable pub send_mail : Result (Unit {0}) → ℕ → Exec (Unit {0})
send_mail mail user_id = do lift mail; publish (email_to user_id)

module _ (x : Context) where
  -- The token of an hour for an immediate login.
  abbrev pub session_token : User → Text
  session_token user = create_access_token x.jose x.now (claims_of user) (some 3600)

  -- The dependency `get_current_active_user`.
  unfoldable pub active_user : Text → Exec User
  unfolding get_current_user get_current_active_user
  active_user bearer = do
    user ← get_current_user x.jose x.now bearer
    lift (get_current_active_user user)
