-- ===== src/Accounts/Requests.antt =====
-- The routes of app/routers/auth as requests, each on a session of its own, and beside them the
-- operations of `UserService` that no route reaches.
pub mod Rules
pub mod Writes
pub mod Invariant
pub mod Logins
pub mod OneTime
pub mod Errors
use fastapi_auth_service.Prelude.{ℕ, Bool, Option, List, [], ◌∷◌}
use fastapi_auth_service.Db.Schema.{Text, Db}
use fastapi_auth_service.Db.Session.{Exn, Exec, Session, pure, ◌>>=◌, ◌>>◌}
use fastapi_auth_service.Accounts.Users.{update_user_email, delete_user}
use fastapi_auth_service.Accounts.EmailChange.{create_email_change_request}
use fastapi_auth_service.Accounts.Routes.{Context}
use fastapi_auth_service.Accounts.Routes.Login.{
  login, register_user, refresh_token, get_trial_eligibility_status,
}
use fastapi_auth_service.Accounts.Routes.Passwords.{
  change_password, request_password_reset, reset_password_with_token,
}
use fastapi_auth_service.Accounts.Routes.Emails.{
  verify_email_route, resend_verification_email, change_email_route, verify_email_change_route,
}
use fastapi_auth_service.Accounts.Routes.Social.{
  link_google_account_route, unlink_google_account_route, login_with_google_route,
}

-- The texts are the routes' arguments in their order; the bearer token comes first.
pub data AccountRequest : Type 0 where
  log_in register : Text → Text → AccountRequest
  refresh_session eligibility : Text → AccountRequest
  new_password : Text → Text → Text → Bool → AccountRequest
  forgotten_password : Text → AccountRequest
  reset : Text → Text → AccountRequest
  verify resend : Text → AccountRequest
  change_address : Text → Text → Text → AccountRequest
  verify_address : Text → AccountRequest
  link : Text → Text → Text → AccountRequest
  unlink : Text → AccountRequest
  log_in_with_google : Text → Option Text → AccountRequest
  update_address : Text → Text → Text → AccountRequest
  delete : Text → Text → AccountRequest
  request_address : ℕ → Text → Text → AccountRequest

unfoldable pub run_account : Context → AccountRequest → Exec (Unit {0})
run_account x (log_in email plain) = login x email plain >> pure tt
run_account x (register email plain) = register_user x email plain >> pure tt
run_account x (refresh_session bearer) = refresh_token x bearer >> pure tt
run_account x (eligibility bearer) = get_trial_eligibility_status x bearer >> pure tt
run_account x (new_password bearer old new long_enough) =
    change_password x bearer old new long_enough
run_account x (forgotten_password email) = request_password_reset x email
run_account x (reset token new) = reset_password_with_token x token new
run_account x (verify token) = verify_email_route x token >> pure tt
run_account x (resend email) = resend_verification_email x email >> pure tt
run_account x (change_address bearer plain new_email) = change_email_route x bearer plain new_email
run_account x (verify_address token) = verify_email_change_route x token >> pure tt
run_account x (link bearer plain code) = link_google_account_route x bearer plain code >> pure tt
run_account x (unlink bearer) = unlink_google_account_route x bearer >> pure tt
run_account x (log_in_with_google code redirect) =
    login_with_google_route x code redirect >> pure tt
run_account x (update_address email plain new_email) =
    update_user_email x.bcrypt email plain new_email >> pure tt
run_account x (delete email plain) = delete_user x.bcrypt email plain >> pure tt
run_account x (request_address user_id new_email current_email) =
    create_email_change_request x.now x.token x.mail user_id new_email current_email >> pure tt

-- A request, what it finds, and the outcomes of its calls of the database.
pub record AccountIncoming : Type 0 where
  pub context : Context
  pub faults : List (Option Exn)
  pub request : AccountRequest

abbrev pub account_session : AccountIncoming → Db → Session
account_session r d = record { committed = d; current = d; faults = r.faults; outbox = [] }

unfoldable pub serve_account : AccountIncoming → Db → Db
unfolding run_account
serve_account r d =
    let (result, s) = run_account r.context r.request (account_session r d) in s.committed

unfoldable pub serve_accounts : List AccountIncoming → Db → Db
unfolding serve_account
serve_accounts [] d = d
serve_accounts (r ∷ rs) d = serve_accounts rs (serve_account r d)
