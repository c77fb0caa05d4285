-- ===== src/Accounts/Requests/Writes/Routes.antt =====
-- The routes of app/routers/auth that write, and the write laws that they use.
use fastapi_auth_service.Prelude.{Bool, true, false, not, Option, none, some}
use fastapi_auth_service.Db.Schema.{Text, Db, User, Token, truthy}
use fastapi_auth_service.Db.Session.{pure, ◌>>=◌, try_except}
use fastapi_auth_service.Db.Ensures.{Keeps, Ensures-bind, Ensures-weaken, Ensures-if, Ensures-try}
use fastapi_auth_service.Db.Keeps.{keeps_rules, Keeps-try, Keeps-bind, Keeps-pure}
use fastapi_auth_service.Accounts.Google.{unlink_google_account, login_with_google}
use fastapi_auth_service.Accounts.Routes.{Context, http_or}
use fastapi_auth_service.Accounts.Routes.Login.{register_user}
use fastapi_auth_service.Accounts.Routes.Passwords.{
  change_password, request_password_reset, reset_password_with_token,
}
use fastapi_auth_service.Accounts.Routes.Emails.{
  verify_owner, verify_live, verify_email_route, resend_unverified, resend_found,
  resend_verification_email, verify_email_change_route,
}
use fastapi_auth_service.Accounts.Routes.Social.{
  link_google_account_route, unlink_google_account_route, login_with_google_route,
}
use fastapi_auth_service.Requests.Invariant.{done}
use fastapi_auth_service.Accounts.Requests.{
  AccountRequest, log_in, register, refresh_session, eligibility, new_password, forgotten_password,
  reset, verify, resend, change_address, verify_address, link, unlink, log_in_with_google,
  update_address, delete, request_address, run_account,
}
use fastapi_auth_service.Accounts.Requests.Rules.{AccountWrites, IsDocumented}
use fastapi_auth_service.Accounts.Requests.Writes.{
  verifies-Keeps, uses_token-Keeps, update_user_email-Keeps, delete_user-Keeps,
  send_verification_email-Keeps, verify_reset_token-Keeps, create_password_reset_token-Keeps,
  create_email_change_request-Keeps, verify_email_change-Keeps,
}
use fastapi_auth_service.Accounts.Requests.Writes.Passwords.{
  create_user-Keeps, update_user_password-Keeps, reset_password-Keeps,
}
use fastapi_auth_service.Accounts.Requests.Writes.Current.{
  active_user-IsRow, authenticate_user-Entered, or_401-Entered,
}
use fastapi_auth_service.Accounts.Requests.Writes.Social.{
  find_or_create_user-Keeps, link_google_account-Ensures, unlink_google_account-Ensures,
  profile-Ensures,
}
use fastapi_auth_service.Accounts.Requests.Writes.Readers.{
  route_rules, http_or-Keeps, lift-Entered, demand-Entered, login-Keeps, refresh_token-Keeps,
  get_trial_eligibility_status-Keeps, change_email_route-Keeps, confirm_change-Keeps,
}

module _ {I : Db → Type 0} ⦃w : AccountWrites I⦄ (x : Context) where
  request_password_reset-Keeps : (email : Text) → Keeps I (request_password_reset x email)
  unfolding request_password_reset
  request_password_reset-Keeps email =
      search (route_rules, create_password_reset_token-Keeps) depth 12

  verify_owner-Keeps : (r : Token) (found : Option User) → Keeps I (verify_owner x r found)
  unfolding verify_owner
  verify_owner-Keeps r none = search keeps_rules
  verify_owner-Keeps r (some u) = search (route_rules, verifies-Keeps, uses_token-Keeps) depth 14

  verify_live-Keeps : (found : Option Token) → Keeps I (verify_live x found)
  unfolding verify_live
  verify_live-Keeps none = search keeps_rules
  verify_live-Keeps (some r) = search (route_rules, verify_owner-Keeps) depth 10

  verify_email_route-Keeps : (t : Text) → Keeps I (verify_email_route x t)
  unfolding verify_email_route
  verify_email_route-Keeps t = search (route_rules, verify_live-Keeps) depth 10

  resend_unverified-Keeps : (u : User) (b : Bool) → Keeps I (resend_unverified x u b)
  unfolding resend_unverified
  resend_unverified-Keeps u true = search keeps_rules
  resend_unverified-Keeps u false = search (keeps_rules, send_verification_email-Keeps) depth 8

  resend_found-Keeps : (found : Option User) → Keeps I (resend_found x found)
  unfolding resend_found
  resend_found-Keeps none = search keeps_rules
  resend_found-Keeps (some u) = resend_unverified-Keeps u u.is_verified

  resend_verification_email-Keeps : (email : Text) → Keeps I (resend_verification_email x email)
  unfolding resend_verification_email
  resend_verification_email-Keeps email = search (route_rules, resend_found-Keeps) depth 10

  verify_email_change_route-Keeps : (t : Text) → Keeps I (verify_email_change_route x t)
  unfolding verify_email_change_route
  verify_email_change_route-Keeps t =
      search (route_rules, verify_email_change-Keeps, confirm_change-Keeps) depth 14

  unlink_google_account_route-Keeps : (t : Text) → Keeps I (unlink_google_account_route x t)
  unfolding unlink_google_account_route
  unlink_google_account_route-Keeps t = Ensures-bind _ _ (active_user-IsRow x t) (λ u.
      Ensures-if (not (truthy u.google_id)) (pure u.auth_type)
        (try_except (unlink_google_account u >>= λ v. pure v.auth_type) (http_or 400))
        (λ _. Ensures-weaken _ (Keeps-pure u.auth_type) (λ d h r. tt) (λ a d h q. tt))
        (λ _.
          Ensures-try _ _
            (Ensures-bind _ _ (unlink_google_account-Ensures u) (λ v. Keeps-pure v.auth_type))
            (http_or-Keeps 400)))

module _ {I : Db → Type 0} ⦃w : AccountWrites I⦄ (x : Context) (k : IsDocumented x) where
  register_user-Keeps : (email plain : Text) → Keeps I (register_user x email plain)
  unfolding register_user
  register_user-Keeps email plain =
      Keeps-bind _ _ (create_user-Keeps x.bcrypt k.hash email plain false false)
        (λ u. send_verification_email-Keeps x.now x.token x.mail u)

  change_password-Keeps :
      (t old new : Text) (long_enough : Bool) → Keeps I (change_password x t old new long_enough)
  unfolding change_password
  change_password-Keeps t old new long_enough =
      search (route_rules, update_user_password-Keeps x.bcrypt k.hash) depth 14

  reset_password_with_token-Keeps : (t new : Text) → Keeps I (reset_password_with_token x t new)
  unfolding reset_password_with_token
  reset_password_with_token-Keeps t new =
      search (route_rules, verify_reset_token-Keeps, reset_password-Keeps x.bcrypt k.hash) depth 14

  link_google_account_route-Keeps :
      (t plain code : Text) → Keeps I (link_google_account_route x t plain code)
  unfolding link_google_account_route
  link_google_account_route-Keeps t plain code = Ensures-bind _ _ (active_user-IsRow x t) (λ u.
      Ensures-try _ _
        (Ensures-bind _ _ (authenticate_user-Entered x.bcrypt u plain) (λ found.
          Ensures-bind _ _ (or_401-Entered x.bcrypt u found) (λ v.
            Ensures-bind _ _ (lift-Entered u _) (λ tokens.
              Ensures-bind _ _ (lift-Entered u _) (λ access_token.
                profile-Ensures x.google k.profile access_token _ (λ p has_sub.
                  Ensures-bind _ _ (demand-Entered u _ 400) (λ _.
                    Ensures-bind _ _ (link_google_account-Ensures u p)
                      (λ w. Keeps-pure w.auth_type))))))))
        (http_or-Keeps 400))

  login_with_google_route-Keeps :
      (code : Text) (redirect : Option Text) → Keeps I (login_with_google_route x code redirect)
  unfolding login_with_google_route login_with_google
  login_with_google_route-Keeps code redirect =
      Keeps-try _ _
        (Keeps-bind _ _
          (Keeps-bind _ _ (search keeps_rules) (λ tokens.
            Keeps-bind _ _ (search keeps_rules) (λ access_token.
              profile-Ensures x.google k.profile access_token _
                (λ p has_sub. search (keeps_rules, find_or_create_user-Keeps) depth 10))))
          (λ answer. Keeps-pure answer.1))
        (http_or-Keeps 400)

  pub run_account-Keeps : (r : AccountRequest) → Keeps I (run_account x r)
  unfolding run_account
  run_account-Keeps (log_in email plain) = done _ (login-Keeps x email plain)
  run_account-Keeps (register email plain) = done _ (register_user-Keeps email plain)
  run_account-Keeps (refresh_session t) = done _ (refresh_token-Keeps x t)
  run_account-Keeps (eligibility t) = done _ (get_trial_eligibility_status-Keeps x t)
  run_account-Keeps (new_password t old new long_enough) =
      change_password-Keeps t old new long_enough
  run_account-Keeps (forgotten_password email) = request_password_reset-Keeps x email
  run_account-Keeps (reset t new) = reset_password_with_token-Keeps t new
  run_account-Keeps (verify t) = done _ (verify_email_route-Keeps x t)
  run_account-Keeps (resend email) = done _ (resend_verification_email-Keeps x email)
  run_account-Keeps (change_address t plain new_email) =
      change_email_route-Keeps x t plain new_email
  run_account-Keeps (verify_address t) = done _ (verify_email_change_route-Keeps x t)
  run_account-Keeps (link t plain code) = done _ (link_google_account_route-Keeps t plain code)
  run_account-Keeps (unlink t) = done _ (unlink_google_account_route-Keeps x t)
  run_account-Keeps (log_in_with_google code redirect) =
      done _ (login_with_google_route-Keeps code redirect)
  run_account-Keeps (update_address email plain new_email) =
      done _ (update_user_email-Keeps x.bcrypt email plain new_email)
  run_account-Keeps (delete email plain) = done _ (delete_user-Keeps x.bcrypt email plain)
  run_account-Keeps (request_address user new_email current) =
      done _ (create_email_change_request-Keeps x.now x.token x.mail user new_email current)
