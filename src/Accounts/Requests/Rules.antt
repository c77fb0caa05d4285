-- ===== src/Accounts/Requests/Rules.antt =====
-- What the account services write, as an interface of database invariants: one law for each write.
use fastapi_auth_service.Prelude.{ℕ, Bool, true, not, ◌&&◌, ◌||◌, ◌≡◌, ◌==◌, any, is_some}
use fastapi_auth_service.Db.Schema.{Text, Db, User, Token, EmailChangeRequest, truthy}
use fastapi_auth_service.Db.Tables.{set_user, add_user}
use fastapi_auth_service.Db.Session.{Result, ok, err}
use fastapi_auth_service.Accounts.Users.{is_google, without_user}
use fastapi_auth_service.Accounts.Tokens.{
  use_verification_token, use_reset_token, delete_unused_tokens, add_verification_token,
}
use fastapi_auth_service.Accounts.EmailChange.{complete_request, add_email_change_request}
use fastapi_auth_service.Accounts.Google.{Profile, Response, linked, unlinked}
use fastapi_auth_service.Accounts.Routes.{Context}

-- A way to log in that fits the kind of the account: a password, or an account at Google only.
abbrev pub has_login : User → Bool
has_login u = truthy u.hashed_password || is_some u.google_id && is_google u.auth_type

-- Whether `authenticate_user` may return the user.
abbrev pub may_enter : User → Bool
may_enter u = truthy u.hashed_password || not (is_google u.auth_type)

abbrev pub can_enter : ℕ → Db → Bool
can_enter id d = any (λ u. u.id == id && may_enter u) d.users

-- A row with this key that has a password.
abbrev pub has_password : ℕ → Db → Bool
has_password id d = any (λ u. u.id == id && truthy u.hashed_password) d.users

-- A change that leaves the key, and leaves a way to log in where there is one.
pub record KeepsLogin (f : User → User) : Type 0 where
  pub id : (u : User) → (f u).id ≡ u.id
  pub login : (u : User) → has_login u ≡ true → has_login (f u) ≡ true

pub record AccountWrites (I : Db → Type 0) : Type 0 where
  pub adds_user :
      (u : User) (d : Db) → has_login u ≡ true → u.id ≡ d.next_id → I d → I (add_user u d)
  pub changes_user : (id : ℕ) (f : User → User) (d : Db) → KeepsLogin f → I d → I (set_user id f d)
  pub unlinks : (id : ℕ) (d : Db) → has_password id d ≡ true → I d → I (set_user id unlinked d)
  pub links :
      (id : ℕ) (p : Profile) (d : Db) → can_enter id d ≡ true → I d → I (set_user id (linked p) d)
  pub deletes_user : (id : ℕ) (d : Db) → I d → I (without_user id d)
  pub adds_token : (t : Token) (d : Db) → I d → I (add_verification_token t d)
  pub deletes_tokens : (user : ℕ) (d : Db) → I d → I (delete_unused_tokens user d)
  pub uses_token : (t : Text) (d : Db) → I d → I (use_verification_token t d)
  pub uses_reset_token : (t : Text) (d : Db) → I d → I (use_reset_token t d)
  pub adds_request : (r : EmailChangeRequest) (d : Db) → I d → I (add_email_change_request r d)
  pub completes : (id : ℕ) (d : Db) → I d → I (complete_request id d)

-- What bcrypt and Google document: no hash is empty, and every profile has the key `sub`.
abbrev pub is_hash : Result Text → Bool
is_hash (ok h) = not (h == 0)
is_hash (err e) = true

abbrev pub has_sub : Result Profile → Bool
has_sub (ok p) = is_some p.sub
has_sub (err e) = true

abbrev pub body_has_sub : Result (Response Profile) → Bool
body_has_sub (ok r) = has_sub r.json
body_has_sub (err e) = true

pub record IsDocumented (x : Context) : Type 0 where
  pub hash : (plain : Text) → is_hash (x.bcrypt.hashpw plain) ≡ true
  pub profile : (t : Text) → body_has_sub (x.google.get_userinfo t) ≡ true
