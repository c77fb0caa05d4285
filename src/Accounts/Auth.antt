-- ===== src/Accounts/Auth.antt =====
-- The dependencies of the routes that authenticate a request (app/core/auth.py).
use fastapi_auth_service.Prelude.{ℕ, ◌&&◌, Option, none, some, ◌==◌, eq_option, if◌then◌else◌}
use fastapi_auth_service.Db.Schema.{Text, User, truthy}
use fastapi_auth_service.Db.Session.{http, Result, ok, err, Exec, pure, lift, ◌>>=◌, try_except}
use fastapi_auth_service.Accounts.{get_user_by_email, or_401}
use fastapi_auth_service.Accounts.Jwt.{Jose, Verdict, expired, invalid, valid, verify_jwt_token}

-- The e-mail address in the claim `sub`, or HTTP 401.
unfoldable pub subject_of : Verdict → Result Text
subject_of expired = err (http 401)
subject_of invalid = err (http 401)
subject_of (valid payload) = elim payload.sub [ none ↦ err (http 401) | some subject ↦ ok subject ]

unfoldable pub get_current_active_user : User → Result User
get_current_active_user current_user =
    if current_user.is_verified then ok current_user else err (http 403)

module _ (j : Jose) (now : ℕ) where
  unfoldable pub get_current_user : Text → Exec User
  unfolding subject_of verify_jwt_token get_user_by_email or_401
  get_current_user token = do
    subject ← lift (subject_of (verify_jwt_token j now token))
    user ← get_user_by_email subject
    lift (or_401 user)

  unfoldable pub optional_user : Text → Exec (Option User)
  unfolding get_current_user
  optional_user token =
      try_except (do user ← get_current_user token; pure (some user)) (λ e. pure none)

  unfoldable pub get_current_user_optional : Option Text → Exec (Option User)
  unfolding optional_user
  get_current_user_optional none = pure none
  get_current_user_optional (some token) = if token == 0 then pure none else optional_user token

-- The API key of the settings, and that of the request's header.
unfoldable pub get_internal_service : Option Text → Text → Result (Unit {0})
get_internal_service setting api_key =
    if truthy setting
    then (if eq_option (some api_key) setting then ok tt else err (http 403))
    else err (http 500)

-- Who sent a request.
pub data Caller : Type 0 where
  service : Caller
  user : User → Caller

unfoldable pub caller_or_401 : Option User → Result Caller
caller_or_401 none = err (http 401)
caller_or_401 (some u) = ok (user u)

unfoldable pub get_service_or_user : Option Text → Option Text → Option User → Result Caller
unfolding caller_or_401
get_service_or_user setting api_key current_user =
    if truthy api_key && eq_option api_key setting then ok service else caller_or_401 current_user
