-- ===== src/Accounts/Routes/Login.antt =====
-- app/routers/auth/user_auth.py and user_profile.py: login, registration, token refresh, and the check
-- of the trial's eligibility.
use fastapi_auth_service.Prelude.{Bool, false, none, if◌then◌else◌}
use fastapi_auth_service.Db.Schema.{Text, User}
use fastapi_auth_service.Db.Session.{
  http, Result, ok, err, Exec, pure, raise, lift, ◌>>=◌, try_except,
}
use fastapi_auth_service.Accounts.{or_401}
use fastapi_auth_service.Accounts.Users.{authenticate_user, create_user}
use fastapi_auth_service.Accounts.Tokens.{send_verification_email}
use fastapi_auth_service.Accounts.Eligibility.{TrialEligibilityResponse, get_trial_eligibility}
use fastapi_auth_service.Accounts.Auth.{get_current_user}
use fastapi_auth_service.Accounts.Routes.{Context, http_or, session_token, active_user}

unfoldable pub verified_or_403 : User → Result User
verified_or_403 user = if user.is_verified then ok user else err (http 403)

module _ (x : Context) where
  unfoldable pub login : Text → Text → Exec Text
  unfolding authenticate_user or_401 verified_or_403 http_or
  login email plain =
      try_except
        (do
          found ← authenticate_user x.bcrypt email plain
          authenticated ← lift (or_401 found)
          user ← lift (verified_or_403 authenticated)
          pure (session_token x user))
        (http_or 401)

  -- Whether the verification mail was sent.
  unfoldable pub register_user : Text → Text → Exec Bool
  unfolding create_user send_verification_email
  register_user email plain = do
    new_user ← create_user x.bcrypt email plain false false
    send_verification_email x.now x.token x.mail new_user

  unfoldable pub refresh_token : Text → Exec Text
  unfolding get_current_user
  refresh_token bearer =
      try_except
        (do
          current_user ← get_current_user x.jose x.now bearer
          pure (session_token x current_user))
        (λ e. raise (http 401))

  unfoldable pub get_trial_eligibility_status : Text → Exec TrialEligibilityResponse
  unfolding active_user get_trial_eligibility
  get_trial_eligibility_status bearer = do
    current_user ← active_user x bearer
    try_except (get_trial_eligibility x.now none current_user) (λ e. raise (http 500))
