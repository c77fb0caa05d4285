-- ===== src/Accounts/Requests/Errors.antt =====
-- The exceptions of the routes of app/routers/auth that catch every exception.
use fastapi_auth_service.Prelude.{ℕ, ◌≡◌, Bool, true, false}
use fastapi_auth_service.Db.Session.{Exn, http, value_error, Exec, Session, pure, ◌>>◌}
use fastapi_auth_service.Db.OnlyHttp.{
  is_http, OnlyHttp, OnlyHttp-pure, OnlyHttp-raise, OnlyHttp-try, OnlyHttp-bind,
}
use fastapi_auth_service.Accounts.Routes.{Context, http_or}
use fastapi_auth_service.Accounts.Routes.Login.{login, refresh_token}
use fastapi_auth_service.Accounts.Routes.Passwords.{reset_error, reset_password_with_token}
use fastapi_auth_service.Accounts.Routes.Emails.{
  verify_email_route, resend_verification_email, verify_email_change_route,
}
use fastapi_auth_service.Accounts.Routes.Social.{login_with_google_route}
use fastapi_auth_service.Accounts.Requests.{
  AccountRequest, log_in, register, refresh_session, eligibility, new_password, forgotten_password,
  reset, verify, resend, change_address, verify_address, link, unlink, log_in_with_google,
  update_address, delete, request_address, run_account,
}

http_or-OnlyHttp : {A : Type 0} (status : ℕ) (e : Exn) → OnlyHttp false (http_or {A = A} status e)
unfolding http_or
http_or-OnlyHttp status (http code) = OnlyHttp-raise code
http_or-OnlyHttp status e = OnlyHttp-raise status

reset_error-OnlyHttp : {A : Type 0} (e : Exn) → OnlyHttp false (reset_error {A = A} e)
unfolding reset_error
reset_error-OnlyHttp value_error = OnlyHttp-raise 400
reset_error-OnlyHttp e = http_or-OnlyHttp 500 e

-- The other routes look up the current user, or call the service, outside their `try`.
abbrev pub is_guarded : AccountRequest → Bool
is_guarded (log_in email plain) = true
is_guarded (refresh_session bearer) = true
is_guarded (reset token new) = true
is_guarded (verify token) = true
is_guarded (resend email) = true
is_guarded (verify_address token) = true
is_guarded (log_in_with_google code redirect) = true
is_guarded _ = false

answered : {A : Type 0} (m : Exec A) → OnlyHttp false m → OnlyHttp false (m >> pure (tt {0}))
answered m h = OnlyHttp-bind m _ h (λ _. OnlyHttp-pure tt)

run_account-OnlyHttp :
    (x : Context) (r : AccountRequest) → is_guarded r ≡ true → OnlyHttp false (run_account x r)
unfolding run_account login refresh_token reset_password_with_token verify_email_route
    resend_verification_email verify_email_change_route login_with_google_route
run_account-OnlyHttp x (log_in email plain) h = answered _ (OnlyHttp-try _ _ (http_or-OnlyHttp 401))
run_account-OnlyHttp x (refresh_session bearer) h =
    answered _ (OnlyHttp-try _ _ (λ e. OnlyHttp-raise 401))
run_account-OnlyHttp x (reset token new) h = OnlyHttp-try _ _ reset_error-OnlyHttp
run_account-OnlyHttp x (verify token) h = answered _ (OnlyHttp-try _ _ (http_or-OnlyHttp 400))
run_account-OnlyHttp x (resend email) h = answered _ (OnlyHttp-try _ _ (λ e. OnlyHttp-pure _))
run_account-OnlyHttp x (verify_address token) h =
    answered _ (OnlyHttp-try _ _ (http_or-OnlyHttp 400))
run_account-OnlyHttp x (log_in_with_google code redirect) h =
    answered _ (OnlyHttp-try _ _ (http_or-OnlyHttp 400))
run_account-OnlyHttp x (register email plain) h = absurd (cc h)
run_account-OnlyHttp x (eligibility bearer) h = absurd (cc h)
run_account-OnlyHttp x (new_password bearer old new long_enough) h = absurd (cc h)
run_account-OnlyHttp x (forgotten_password email) h = absurd (cc h)
run_account-OnlyHttp x (change_address bearer plain new_email) h = absurd (cc h)
run_account-OnlyHttp x (link bearer plain code) h = absurd (cc h)
run_account-OnlyHttp x (unlink bearer) h = absurd (cc h)
run_account-OnlyHttp x (update_address email plain new_email) h = absurd (cc h)
run_account-OnlyHttp x (delete email plain) h = absurd (cc h)
run_account-OnlyHttp x (request_address user new_email current) h = absurd (cc h)

-- The routes of login, refresh, password reset, verification, resending, address verification and
-- login with Google return or raise an HTTPException, in whatever session.
pub run_account-is_http :
    (x : Context) (r : AccountRequest) (s : Session)
    → is_guarded r ≡ true
    → is_http (run_account x r s).0 ≡ true
run_account-is_http x r s h = (run_account-OnlyHttp x r h).at s
