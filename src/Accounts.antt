-- ===== src/Accounts.antt =====
-- The accounts: app/services/user_service.py, app/services/oauth_service.py, app/core/security.py and
-- app/core/auth.py. bcrypt, the signing of JWTs, Google, the clock and random tokens are parameters.
pub mod Users
pub mod Tokens
pub mod EmailChange
pub mod Eligibility
pub mod Jwt
pub mod Auth
pub mod Google
pub mod Routes
pub mod Requests
use fastapi_auth_service.Prelude.{ℕ, Bool, not, Option, none, some, ◌==◌, select}
use fastapi_auth_service.Db.Schema.{Text, User, AuthType, Db}
use fastapi_auth_service.Db.Session.{
  Exn, http, integrity_error, other_exception, Result, ok, err, Exec, raise, lift, ◌>>=◌, ◌>>◌,
  query, rollback, scalar_one_or_none,
}

-- `bcrypt.hashpw` with a new salt, and `bcrypt.checkpw`. Both raise on input that they reject.
pub record Bcrypt : Type 0 where
  pub hashpw : Text → Result Text
  pub checkpw : Text → Text → Result Bool

-- `UserService.get_user_by_id`; what it loads eagerly belongs to the same call.
unfoldable pub get_user_by_id : ℕ → Exec (Option User)
get_user_by_id user_id = do
  rows ← query (λ d. select (λ u. u.id == user_id) d.users)
  scalar_one_or_none rows

unfoldable pub get_user_by_email : Text → Exec (Option User)
get_user_by_email email = do
  rows ← query (λ d. select (λ u. u.email == email) d.users)
  scalar_one_or_none rows

-- `verify_password` of a column that may be `None`.
unfoldable pub verify_password : Bcrypt → Text → Option Text → Result Bool
verify_password c plain none = err other_exception
verify_password c plain (some hashed) = c.checkpw plain hashed

-- `except IntegrityError`: rollback and HTTP 400.
unfoldable pub rollback_and_400 : {A : Type 0} → Exn → Exec A
rollback_and_400 integrity_error = do rollback; raise (http 400)
rollback_and_400 e = raise e

-- `except Exception`: rollback and HTTP 500.
unfoldable pub rollback_and_500 : {A : Type 0} → Exn → Exec A
rollback_and_500 e = do rollback; raise (http 500)

-- HTTP 401 where no user is authenticated.
unfoldable pub or_401 : Option User → Result User
or_401 none = err (http 401)
or_401 (some user) = ok user
