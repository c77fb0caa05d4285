-- ===== src/Accounts/Google.antt =====
-- `GoogleOAuthService` (app/services/oauth_service.py). Google's answers are a parameter.
pub mod Again
use fastapi_auth_service.Prelude.{
  ℕ, ◌*◌, Bool, true, false, Option, none, some, ◌==◌, eq_option, select, if◌then◌else◌,
}
use fastapi_auth_service.Db.Schema.{Text, User, AuthType, AccountStatus, Db, truthy}
use fastapi_auth_service.Db.Tables.{set_user, add_user}
use fastapi_auth_service.Db.Session.{
  http, integrity_error, other_exception, Result, ok, err, Exec, pure, raise, lift, ◌>>=◌, ◌>>◌,
  query, gets, modify, call, commit, refresh, scalar_one_or_none,
}
use fastapi_auth_service.Accounts.Jwt.{Claims, Jose, create_access_token}

-- The keys `sub` and `email` of Google's profile; `none` is an absent key.
pub record Profile : Type 0 where
  pub sub : Option Text
  pub email : Option Text

-- An HTTP response and what `response.json()` does.
pub record Response (A : Type 0) : Type 0 where
  pub status_code : ℕ
  pub json : Result A

-- The two requests to Google; of the tokens, the key `access_token` is read.
pub record GoogleApi : Type 0 where
  pub post_code : Text → Option Text → Result (Response (Option Text))
  pub get_userinfo : Text → Result (Response Profile)

abbrev pub json_or_400 : {A : Type 0} → Result A → Result A
json_or_400 (ok a) = ok a
json_or_400 (err e) = err (http 400)

-- HTTP 400 unless the request is answered with status 200 and a body.
unfoldable pub checked : {A : Type 0} → Result (Response A) → Result A
checked (err e) = err (http 400)
checked (ok r) = if r.status_code == 200 then json_or_400 r.json else err (http 400)

unfoldable pub exchange_code_for_tokens : GoogleApi → Text → Option Text → Result (Option Text)
unfolding checked
exchange_code_for_tokens google code redirect_uri = checked (google.post_code code redirect_uri)

unfoldable pub get_user_profile : GoogleApi → Text → Result Profile
unfolding checked
get_user_profile google access_token = checked (google.get_userinfo access_token)

-- Google's identifier, the kind of login that follows from the password, and a verified address.
abbrev pub linked_by_email : Profile → User → User
linked_by_email profile u = record u {
  google_id = profile.sub;
  auth_type = if truthy u.hashed_password then AuthType.both else AuthType.google;
  is_verified = true;
}

abbrev pub linked : Profile → User → User
linked profile u = record u {
  google_id = profile.sub;
  auth_type = AuthType.both;
  is_verified = true;
}

abbrev pub unlinked : User → User
unlinked u = record u { google_id = none; auth_type = AuthType.password }

abbrev pub google_user : ℕ → Text → Profile → User
google_user id email profile = record {
  id = id;
  email = email;
  hashed_password = none;
  google_id = profile.sub;
  auth_type = AuthType.google;
  is_admin = false;
  is_verified = true;
  stripe_customer_id = none;
  account_status = AccountStatus.active;
  has_consumed_initial_trial = false;
}

-- The column `email` may not be null.
unfoldable pub create_from_profile : Profile → Option Text → Exec User
create_from_profile profile none = do call; raise integrity_error
create_from_profile profile (some email) = do
  id ← gets (λ d. d.next_id)
  modify (add_user (google_user id email profile))
  commit
  refresh
  pure (google_user id email profile)

unfoldable pub link_or_create : Profile → Option User → Exec User
unfolding create_from_profile
link_or_create profile none = create_from_profile profile profile.email
link_or_create profile (some user) = do
  modify (set_user user.id (linked_by_email profile))
  commit
  refresh
  pure (linked_by_email profile user)

unfoldable pub found_or_by_email : Profile → Option User → Exec User
unfolding link_or_create
found_or_by_email profile (some user) = pure user
found_or_by_email profile none = do
  rows ← query (λ d. select (λ u. eq_option (some u.email) profile.email) d.users)
  found ← scalar_one_or_none rows
  link_or_create profile found

-- `User.google_id == None` is the SQL test `IS NULL`.
unfoldable pub find_or_create_user : Profile → Exec User
unfolding found_or_by_email
find_or_create_user profile = do
  rows ← query (λ d. select (λ u. eq_option u.google_id profile.sub) d.users)
  found ← scalar_one_or_none rows
  found_or_by_email profile found

unfoldable pub link_google_account : User → Profile → Exec User
link_google_account user profile = do
  modify (set_user user.id (linked profile))
  commit
  refresh
  pure (linked profile user)

unfoldable pub unlink_with_password : User → Bool → Exec User
unlink_with_password user false = raise (http 400)
unlink_with_password user true = do
  modify (set_user user.id unlinked)
  commit
  refresh
  pure (unlinked user)

unfoldable pub unlink_google_account : User → Exec User
unfolding unlink_with_password
unlink_google_account user = unlink_with_password user (truthy user.hashed_password)

-- `tokens['access_token']`.
unfoldable pub access_token_of : Option Text → Result Text
access_token_of none = err other_exception
access_token_of (some t) = ok t

abbrev pub claims_of : User → Claims
claims_of user = record {
  sub = some user.email;
  id = some user.id;
  is_admin = some user.is_admin;
  exp = none;
}

-- `minutes` is the setting `access_token_expire_minutes`.
unfoldable pub login_with_google :
    GoogleApi → Jose → ℕ → ℕ → Text → Option Text → Exec (User × Text)
unfolding exchange_code_for_tokens get_user_profile access_token_of find_or_create_user
    create_access_token
login_with_google google j now minutes code redirect_uri = do
  tokens ← lift (exchange_code_for_tokens google code redirect_uri)
  access_token ← lift (access_token_of tokens)
  profile ← lift (get_user_profile google access_token)
  user ← find_or_create_user profile
  pure (user, create_access_token j now (claims_of user) (some (minutes * 60)))
