-- ===== src/Tests/Accounts.antt =====
-- Accounts, tokens and a Google whose profiles are known, and the theorems on them at these.
use fastapi_auth_service.Prelude.{
  ◌+◌, ◌≡◌, refl, Bool, true, false, none, some, List, [], ◌∷◌, ◌==◌, ltb, arith, if◌then◌else◌,
  map,
}
use fastapi_auth_service.Db.Schema.{AuthType, AccountStatus, Text, Db, User, Token, constraints}
use fastapi_auth_service.Db.Tables.{add_user, set_user}
use fastapi_auth_service.Db.OnlyHttp.{is_http}
use fastapi_auth_service.Db.Session.{sqlalchemy_error, http, ok, err, fresh, after, ◌>>=◌}
use fastapi_auth_service.Accounts.{Bcrypt, verify_password}
use fastapi_auth_service.Accounts.Users.{authenticate_user}
use fastapi_auth_service.Accounts.Tokens.{hours, create_verification_token, verify_email}
use fastapi_auth_service.Accounts.Tokens.Table.{view, issue, redeem}
use fastapi_auth_service.Accounts.Tokens.View.{
  with_verified, create_verification_token-issue, verify_email-redeem,
  verify_email-create_verification_token,
}
use fastapi_auth_service.Accounts.Jwt.{
  Claims, Jose, expired, valid, skew, lifetime, create_access_token, verify_jwt_token,
}
use fastapi_auth_service.Accounts.Jwt.Expiry.{
  with_expiry, is_current, verify_jwt_token-create_access_token, verify_jwt_token-is_current,
  get_current_user-create_access_token,
}
use fastapi_auth_service.Accounts.Auth.{get_current_user}
use fastapi_auth_service.Accounts.Google.{GoogleApi, claims_of, find_or_create_user}
use fastapi_auth_service.Accounts.Google.Again.{find_or_create_user-again}
use fastapi_auth_service.Accounts.Routes.{Context}
use fastapi_auth_service.Accounts.Routes.Emails.{verify_email_route, resend_verification_email}
use fastapi_auth_service.Accounts.Routes.Login.{register_user}
use fastapi_auth_service.Accounts.Routes.Social.{login_with_google_route}
use fastapi_auth_service.Accounts.Requests.{
  AccountRequest, AccountIncoming, log_in, register, verify, reset, verify_address,
  log_in_with_google, resend, run_account, serve_account, serve_accounts,
}
use fastapi_auth_service.Accounts.Requests.Rules.{IsDocumented}
use fastapi_auth_service.Accounts.Requests.Invariant.{AreDocumented}
use fastapi_auth_service.Accounts.Requests.Logins.{IsAccounted, serve_accounts-IsAccounted}
use fastapi_auth_service.Accounts.Requests.Logins.Entry.{answer, authenticate_user-IsAccounted}
use fastapi_auth_service.Accounts.Requests.OneTime.{IsSpent, serve_accounts-IsSpent}
use fastapi_auth_service.Accounts.Requests.OneTime.Repeats.{
  serve_account-verify, serve_account-reset, serve_account-verify_address,
}
use fastapi_auth_service.Accounts.Requests.Errors.{run_account-is_http}
use fastapi_auth_service.Tests.Data.{anna, database}

-- A hash that is the password and one.
abbrev pub bcrypt : Bcrypt
bcrypt = record { hashpw = λ p. ok (p + 1); checkpw = λ p h. ok (h == p + 1) }

abbrev pub anna_claims : Claims
anna_claims = claims_of anna

-- The token 900 is Anna's, issued at 100 for an hour.
abbrev pub jose : Jose
jose = record {
  encode = λ c. 900;
  decode = λ b t. if t == 900 then some (with_expiry 100 (some 3600) anna_claims) else none;
}

abbrev pub google : GoogleApi
google = record {
  post_code = λ code redirect. ok (record { status_code = 200; json = ok (some 31) });
  get_userinfo =
      λ t. ok (record { status_code = 200; json = ok (record { sub = some 22; email = some 21 }) });
}

abbrev pub account_context : Context
account_context = record {
  bcrypt = bcrypt;
  jose = jose;
  google = google;
  now = 1000;
  token = 700;
  mail = ok tt;
  minutes = 60;
}

abbrev pub row : Text → Bool → Token
row t spent = record { token = t; user_id = 1; expires_at = 5000; used = spent }

-- Anna with a live and a used verification token, a used reset token, and a completed change.
abbrev pub accounts : Db
accounts = record database {
  users = anna ∷ [];
  verification_tokens = row 500 true ∷ row 501 false ∷ [];
  reset_tokens = row 600 true ∷ [];
  email_change_requests =
      (record {
        id = 8;
        user_id = 1;
        current_email = 11;
        new_email = 12;
        token = 650;
        expires_at = 5000;
        completed = true;
      })
      ∷ [];
}

-- Whom Google's profile makes of the next key.
abbrev pub gustav : User
gustav = record {
  id = accounts.next_id;
  email = 21;
  hashed_password = none;
  google_id = some 22;
  auth_type = AuthType.google;
  is_admin = false;
  is_verified = true;
  stripe_customer_id = none;
  account_status = AccountStatus.active;
  has_consumed_initial_trial = false;
}

abbrev pub incoming : AccountRequest → AccountIncoming
incoming r = record { context = account_context; faults = []; request = r }

-- Someone registers, Anna's token is redeemed, an account at Google is made, and a call fails.
abbrev pub visits : List AccountIncoming
visits =
    incoming (register 40 41)
    ∷ incoming (verify 501)
    ∷ incoming (log_in_with_google 50 none)
    ∷ record { context = account_context; faults = some sqlalchemy_error ∷ []; request = resend 40 }
    ∷ []

account_context-IsDocumented : IsDocumented account_context
account_context-IsDocumented = record { hash = λ p. ground arith; profile = λ t. refl }

visits-AreDocumented : AreDocumented visits
visits-AreDocumented = (
  account_context-IsDocumented,
  (
    account_context-IsDocumented,
    (account_context-IsDocumented, (account_context-IsDocumented, tt)),
  ),
)

accounts-IsAccounted : IsAccounted accounts
accounts-IsAccounted = record { below = refl; distinct = refl; reachable = refl }

database-constraints : constraints database ≡ true
unfolding constraints
database-constraints = refl

accounts-constraints : constraints accounts ≡ true
unfolding constraints
accounts-constraints = refl

-- Anna is verified, the newcomer is not, and the account at Google is.
visits-users :
    map (λ u. u.is_verified) (serve_accounts visits accounts).users ≡ true ∷ false ∷ true ∷ []
unfolding serve_accounts ◌>>=◌ register_user verify_email_route login_with_google_route
    resend_verification_email set_user constraints
visits-users = refl

serve_accounts-IsAccounted_example : IsAccounted (serve_accounts visits accounts)
serve_accounts-IsAccounted_example =
    serve_accounts-IsAccounted visits accounts visits-AreDocumented accounts-IsAccounted

authenticate_user-IsAccounted_example : authenticate_user bcrypt 11 11 (fresh accounts) ≡ (
  (if true then answer anna (verify_password bcrypt 11 (some 12)) else ok none),
  fresh accounts,
)
authenticate_user-IsAccounted_example =
    authenticate_user-IsAccounted bcrypt 11 11 anna accounts accounts-IsAccounted refl

serve_accounts-IsSpent_example : IsSpent accounts (serve_accounts visits accounts)
serve_accounts-IsSpent_example = serve_accounts-IsSpent visits accounts visits-AreDocumented

serve_account-verify_example :
    serve_account (incoming (verify 500)) (serve_accounts visits accounts)
    ≡ serve_accounts visits accounts
serve_account-verify_example =
    serve_account-verify 500 visits accounts visits-AreDocumented accounts-constraints
      account_context [] refl

serve_account-reset_example :
    serve_account (incoming (reset 600 44)) (serve_accounts visits accounts)
    ≡ serve_accounts visits accounts
serve_account-reset_example =
    serve_account-reset 600 visits accounts visits-AreDocumented accounts-constraints
      account_context [] 44 refl

serve_account-verify_address_example :
    serve_account (incoming (verify_address 650)) (serve_accounts visits accounts)
    ≡ serve_accounts visits accounts
serve_account-verify_address_example =
    serve_account-verify_address 650 visits accounts visits-AreDocumented accounts-constraints
      account_context [] refl

create_verification_token-issue_example :
    view (after (create_verification_token 1000 700 1) accounts)
    ≡ issue 700 1 (1000 + hours 24) (view accounts)
create_verification_token-issue_example =
    create_verification_token-issue 1000 700 1 anna accounts refl refl accounts-constraints

-- The same accounts before Anna has verified her address.
abbrev pub unverified : User
unverified = record anna { is_verified = false }

abbrev pub new_accounts : Db
new_accounts = record accounts { users = unverified ∷ [] }

new_accounts-constraints : constraints new_accounts ≡ true
unfolding constraints
new_accounts-constraints = refl

verify_email-redeem_example :
    ((verify_email 1000 501 (fresh new_accounts)).0
      ≡ ok (
          if ltb 5000 1000
          then (false, none)
          else (true, some (record unverified { is_verified = true }))))
    × ((after (verify_email 1000 501) new_accounts).users
        ≡ (if ltb 5000 1000 then new_accounts.users else with_verified 1 new_accounts.users))
    × (view (after (verify_email 1000 501) new_accounts)
        ≡ (if ltb 5000 1000 then view new_accounts else redeem 501 (view new_accounts)))
verify_email-redeem_example =
    verify_email-redeem 1000 501 (row 501 false) unverified new_accounts refl refl
      new_accounts-constraints

verify_email-create_verification_token_example :
    ((verify_email 2000 700 (fresh (after (create_verification_token 1000 700 1) new_accounts))).0
      ≡ ok (
          if ltb (1000 + hours 24) 2000
          then (false, none)
          else (true, some (record unverified { is_verified = true }))))
    × ((after
          (verify_email 2000 700)
          (after (create_verification_token 1000 700 1) new_accounts)).users
        ≡ (if ltb (1000 + hours 24) 2000
            then new_accounts.users
            else with_verified 1 new_accounts.users))
verify_email-create_verification_token_example =
    verify_email-create_verification_token 1000 2000 700 1 unverified new_accounts refl refl
      new_accounts-constraints

verify_jwt_token-create_access_token_example :
    verify_jwt_token jose 3000 (create_access_token jose 100 anna_claims (some 3600)) ≡ (
      if ltb (100 + lifetime (some 3600) + skew) 3000
      then expired
      else valid (with_expiry 100 (some 3600) anna_claims))
verify_jwt_token-create_access_token_example =
    verify_jwt_token-create_access_token jose 100 3000 anna_claims (some 3600) (λ b. refl)

verify_jwt_token-is_current_example : is_current 3000 (verify_jwt_token jose 3000 900) ≡ true
verify_jwt_token-is_current_example = verify_jwt_token-is_current jose 3000 900 (λ c e. e)

get_current_user-create_access_token_example :
    get_current_user jose 3000
      (create_access_token jose 100 (claims_of anna) (some 3600))
      (fresh accounts)
    ≡ (
      (if ltb (100 + lifetime (some 3600) + skew) 3000 then err (http 401) else ok anna),
      fresh accounts,
    )
get_current_user-create_access_token_example =
    get_current_user-create_access_token jose 100 3000 anna (some 3600) accounts (λ b. refl) refl

find_or_create_user-again_example :
    (find_or_create_user (record { sub = some 22; email = some 21 }) (fresh accounts)
      ≡ (ok gustav, fresh (add_user gustav accounts)))
    × (find_or_create_user
          (record { sub = some 22; email = some 21 })
          (fresh (after (find_or_create_user (record { sub = some 22; email = some 21 })) accounts))
        ≡ (
          ok gustav,
          fresh (after (find_or_create_user (record { sub = some 22; email = some 21 })) accounts),
        ))
find_or_create_user-again_example =
    find_or_create_user-again 22 21 accounts refl refl accounts-constraints

run_account-is_http_example :
    is_http (run_account account_context (log_in 11 11) (fresh accounts)).0 ≡ true
run_account-is_http_example =
    run_account-is_http account_context (log_in 11 11) (fresh accounts) refl
