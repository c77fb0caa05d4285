-- ===== src/Accounts/Routes/Social.antt =====
-- app/routers/auth/social_auth.py.
use fastapi_auth_service.Prelude.{not, Option, none, some, eq_option, if◌then◌else◌}
use fastapi_auth_service.Db.Schema.{Text, AuthType, truthy}
use fastapi_auth_service.Db.Session.{Exec, pure, lift, ◌>>=◌, ◌>>◌, try_except}
use fastapi_auth_service.Accounts.{or_401}
use fastapi_auth_service.Accounts.Users.{authenticate_user}
use fastapi_auth_service.Accounts.Google.{
  exchange_code_for_tokens, get_user_profile, access_token_of, link_google_account,
  unlink_google_account, login_with_google,
}
use fastapi_auth_service.Accounts.Routes.{Context, http_or, active_user}
use fastapi_auth_service.Accounts.Routes.Passwords.{demand}

module _ (x : Context) where
  unfoldable pub link_google_account_route : Text → Text → Text → Exec AuthType
  unfolding active_user authenticate_user or_401 exchange_code_for_tokens access_token_of
      get_user_profile link_google_account http_or demand
  link_google_account_route bearer plain code = do
    current_user ← active_user x bearer
    try_except
        (do
          found ← authenticate_user x.bcrypt current_user.email plain
          user ← lift (or_401 found)
          tokens ← lift (exchange_code_for_tokens x.google code none)
          access_token ← lift (access_token_of tokens)
          profile ← lift (get_user_profile x.google access_token)
          demand (eq_option profile.email (some current_user.email)) 400
          updated ← link_google_account current_user profile
          pure updated.auth_type)
        (http_or 400)

  unfoldable pub unlink_google_account_route : Text → Exec AuthType
  unfolding active_user unlink_google_account http_or
  unlink_google_account_route bearer = do
    current_user ← active_user x bearer
    if not (truthy current_user.google_id)
        then pure current_user.auth_type
        else try_except (do updated ← unlink_google_account current_user; pure updated.auth_type)
            (http_or 400)

  unfoldable pub login_with_google_route : Text → Option Text → Exec Text
  unfolding login_with_google http_or
  login_with_google_route code redirect_uri =
      try_except
        (do
          answer ← login_with_google x.google x.jose x.now x.minutes code redirect_uri
          pure answer.1)
        (http_or 400)
