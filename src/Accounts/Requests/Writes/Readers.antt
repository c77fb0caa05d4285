-- ===== src/Accounts/Requests/Writes/Readers.antt =====
-- The routes of app/routers/auth that write nothing themselves, and the steps that routes share.
use fastapi_auth_service.Prelude.{ℕ, Bool, true, false, ◌≡◌, Option, none, some}
use fastapi_auth_service.Db.Schema.{Text, Db, User, EmailChangeRequest}
use fastapi_auth_service.Db.Session.{Exn, http, value_error, Result, lift}
use fastapi_auth_service.Db.Ensures.{
  Ensures, Keeps, Ensures-weaken, Ensures-lift, Ensures-pure, Ensures-raise,
}
use fastapi_auth_service.Db.Keeps.{keeps_rules}
use fastapi_auth_service.Accounts.Eligibility.{
  after_purchases, after_subscriptions, default_eligibility, eligibility_for, get_trial_eligibility,
}
use fastapi_auth_service.Accounts.Auth.{get_current_user}
use fastapi_auth_service.Accounts.Routes.{Context, http_or, send_mail, active_user}
use fastapi_auth_service.Accounts.Routes.Login.{login, refresh_token, get_trial_eligibility_status}
use fastapi_auth_service.Accounts.Routes.Passwords.{demand, reset_error, hide_error, mail_found}
use fastapi_auth_service.Accounts.Routes.Emails.{change_email_route, confirm_change}
use fastapi_auth_service.Accounts.Requests.Rules.{can_enter}
use fastapi_auth_service.Accounts.Requests.Writes.{read_rules}
use fastapi_auth_service.Accounts.Requests.Writes.Current.{active_user-IsRow}

module _ {I : Db → Type 0} {A : Type 0} where
  pub http_or-Keeps : (status : ℕ) (e : Exn) → Keeps I (http_or {A = A} status e)
  unfolding http_or
  http_or-Keeps status (http code) = search keeps_rules
  http_or-Keeps status e = search keeps_rules

  pub reset_error-Keeps : (e : Exn) → Keeps I (reset_error {A = A} e)
  unfolding reset_error
  reset_error-Keeps value_error = search keeps_rules
  reset_error-Keeps e = http_or-Keeps 500 e

module _ {I : Db → Type 0} where
  pub hide_error-Keeps : (e : Exn) → Keeps I (hide_error e)
  unfolding hide_error
  hide_error-Keeps (http status) = search keeps_rules
  hide_error-Keeps value_error = search keeps_rules
  hide_error-Keeps e = search keeps_rules

  pub demand-Keeps : (b : Bool) (status : ℕ) → Keeps I (demand b status)
  unfolding demand
  demand-Keeps true status = search keeps_rules
  demand-Keeps false status = search keeps_rules

  pub lift-Entered :
      {A : Type 0} (u : User) (r : Result A)
      → Ensures I (λ d. can_enter u.id d ≡ true) (lift r) (λ _ d. can_enter u.id d ≡ true)
  lift-Entered u r = Ensures-lift r (λ a d i h e. h)

  pub demand-Entered :
      (u : User) (b : Bool) (status : ℕ)
      → Ensures I (λ d. can_enter u.id d ≡ true) (demand b status) (λ _ d. can_enter u.id d ≡ true)
  unfolding demand
  demand-Entered u true status = Ensures-pure tt (λ d i h. h)
  demand-Entered u false status = Ensures-raise (http status)

  pub get_current_user-Keeps : (x : Context) (t : Text) → Keeps I (get_current_user x.jose x.now t)
  unfolding get_current_user
  get_current_user-Keeps x t = search read_rules depth 8

  pub active_user-Keeps : (x : Context) (t : Text) → Keeps I (active_user x t)
  active_user-Keeps x t = Ensures-weaken _ (active_user-IsRow x t) (λ d h r. tt) (λ a d h q. tt)

  pub send_mail-Keeps : (mail : Result (Unit {0})) (id : ℕ) → Keeps I (send_mail mail id)
  unfolding send_mail
  send_mail-Keeps mail id = search keeps_rules

  pub mail_found-Keeps : (x : Context) (found : Option User) → Keeps I (mail_found x found)
  unfolding mail_found
  mail_found-Keeps x none = search keeps_rules
  mail_found-Keeps x (some u) = send_mail-Keeps x.mail u.id

pub ruleset route_rules = (
  read_rules, http_or-Keeps, reset_error-Keeps, hide_error-Keeps, demand-Keeps,
  get_current_user-Keeps, active_user-Keeps, send_mail-Keeps, mail_found-Keeps,
)

module _ {I : Db → Type 0} (x : Context) where
  pub login-Keeps : (email plain : Text) → Keeps I (login x email plain)
  unfolding login
  login-Keeps email plain = search route_rules depth 12

  pub refresh_token-Keeps : (t : Text) → Keeps I (refresh_token x t)
  unfolding refresh_token
  refresh_token-Keeps t = search route_rules depth 12

  after_purchases-Keeps : (user : ℕ) (b : Bool) → Keeps I (after_purchases x.now user b)
  unfolding after_purchases
  after_purchases-Keeps user true = search keeps_rules
  after_purchases-Keeps user false = search keeps_rules

  after_subscriptions-Keeps : (user : ℕ) (b : Bool) → Keeps I (after_subscriptions x.now user b)
  unfolding after_subscriptions
  after_subscriptions-Keeps user true = search keeps_rules
  after_subscriptions-Keeps user false = search (keeps_rules, after_purchases-Keeps) depth 8

  pub get_trial_eligibility_status-Keeps : (t : Text) → Keeps I (get_trial_eligibility_status x t)
  unfolding get_trial_eligibility_status get_trial_eligibility eligibility_for default_eligibility
  get_trial_eligibility_status-Keeps t = search (route_rules, after_subscriptions-Keeps) depth 12

  pub change_email_route-Keeps :
      (t plain new_email : Text) → Keeps I (change_email_route x t plain new_email)
  unfolding change_email_route
  change_email_route-Keeps t plain new_email = search route_rules depth 14

  pub confirm_change-Keeps :
      (u : User) (found : Option EmailChangeRequest) → Keeps I (confirm_change x u found)
  unfolding confirm_change
  confirm_change-Keeps u none = search keeps_rules
  confirm_change-Keeps u (some r) = send_mail-Keeps x.mail u.id
