-- ===== src/Accounts/Requests/Writes.antt =====
-- The operations of `UserService` (app/services/user_service.py) and the write laws that they use.
pub mod Passwords
pub mod Current
pub mod Social
pub mod Readers
pub mod Routes
use fastapi_auth_service.Prelude.{
  ℕ, Bool, true, false, not, ◌||◌, ◌≡◌, refl, Option, none, some, arith,
}
use fastapi_auth_service.Db.Schema.{Text, Db, User, Token, EmailChangeRequest, truthy}
use fastapi_auth_service.Db.Tables.{set_user, add_user}
use fastapi_auth_service.Db.Session.{
  Exn, http, integrity_error, Result, ok, err, Exec, modify, lift,
}
use fastapi_auth_service.Db.Ensures.{
  Ensures, Anything, Keeps, Ensures-bind, Ensures-gets, Ensures-modify, Ensures-lift,
  Ensures-weaken,
}
use fastapi_auth_service.Db.Keeps.{keeps_rules, Keeps-modify, Keeps-try, Keeps-bind, Keeps-lift}
use fastapi_auth_service.Accounts.{
  Bcrypt, or_401, get_user_by_id, get_user_by_email, rollback_and_400, rollback_and_500,
}
use fastapi_auth_service.Accounts.Users.{
  with_email, with_password, without_user, create_user, authenticate_found, authenticate_user,
  change_email, update_user_email, delete_found, delete_user, change_password, update_user_password,
  reset_found, reset_password,
}
use fastapi_auth_service.Accounts.Tokens.{
  mark_verified, use_verification_token, use_reset_token, delete_unused_tokens,
  add_verification_token, issue_token, create_verification_token, send_verification_email,
  redeem_reset_token, verify_reset_token, create_reset_for, create_password_reset_token,
}
use fastapi_auth_service.Accounts.EmailChange.{
  with_new_email, complete_request, add_email_change_request, send_change_mail,
  request_email_change, create_email_change_request, apply_change, change_for, change_found,
  verify_email_change,
}
use fastapi_auth_service.Accounts.Requests.Rules.{has_login, KeepsLogin, AccountWrites, is_hash}

mark_verified-KeepsLogin : KeepsLogin mark_verified
mark_verified-KeepsLogin = record { id = λ u. refl; login = λ u h. h }

module _ {I : Db → Type 0} {A : Type 0} where
  pub rollback_and_400-Keeps : (e : Exn) → Keeps I (rollback_and_400 {A = A} e)
  unfolding rollback_and_400
  rollback_and_400-Keeps integrity_error = search keeps_rules
  rollback_and_400-Keeps e = search keeps_rules

  pub rollback_and_500-Keeps : (e : Exn) → Keeps I (rollback_and_500 {A = A} e)
  unfolding rollback_and_500
  rollback_and_500-Keeps e = search keeps_rules

module _ {I : Db → Type 0} where
  pub get_user_by_id-Keeps : (id : ℕ) → Keeps I (get_user_by_id id)
  unfolding get_user_by_id
  get_user_by_id-Keeps id = search keeps_rules

  pub get_user_by_email-Keeps : (email : Text) → Keeps I (get_user_by_email email)
  unfolding get_user_by_email
  get_user_by_email-Keeps email = search keeps_rules

  authenticate_found-Keeps :
      (c : Bcrypt) (plain : Text) (found : Option User) → Keeps I (authenticate_found c plain found)
  unfolding authenticate_found
  authenticate_found-Keeps c plain none = search keeps_rules
  authenticate_found-Keeps c plain (some u) = search keeps_rules

  pub authenticate_user-Keeps :
      (c : Bcrypt) (email plain : Text) → Keeps I (authenticate_user c email plain)
  unfolding authenticate_user
  authenticate_user-Keeps c email plain =
      search (keeps_rules, get_user_by_email-Keeps, authenticate_found-Keeps) depth 6

pub ruleset read_rules = (
  keeps_rules, rollback_and_400-Keeps, rollback_and_500-Keeps, get_user_by_id-Keeps,
  get_user_by_email-Keeps, authenticate_user-Keeps,
)

module _ {I : Db → Type 0} ⦃w : AccountWrites I⦄ where
  pub changes-Keeps : (id : ℕ) (f : User → User) → KeepsLogin f → Keeps I (modify (set_user id f))
  changes-Keeps id f k = Keeps-modify _ (λ d h. w.changes_user id f d k h)

  pub verifies-Keeps : (id : ℕ) → Keeps I (modify (set_user id mark_verified))
  verifies-Keeps id = changes-Keeps id _ mark_verified-KeepsLogin

  with_email-Keeps : (id : ℕ) (email : Text) → Keeps I (modify (set_user id (with_email email)))
  with_email-Keeps id email = changes-Keeps id _ (record { id = λ u. refl; login = λ u h. h })

  with_new_email-Keeps :
      (id : ℕ) (email : Text) → Keeps I (modify (set_user id (with_new_email email)))
  with_new_email-Keeps id email = changes-Keeps id _ (record { id = λ u. refl; login = λ u h. h })

  deletes-Keeps : (id : ℕ) → Keeps I (modify (without_user id))
  deletes-Keeps id = Keeps-modify _ (w.deletes_user id)

  adds_token-Keeps : (t : Token) → Keeps I (modify (add_verification_token t))
  adds_token-Keeps t = Keeps-modify _ (w.adds_token t)

  deletes_tokens-Keeps : (user : ℕ) → Keeps I (modify (delete_unused_tokens user))
  deletes_tokens-Keeps user = Keeps-modify _ (w.deletes_tokens user)

  pub uses_token-Keeps : (t : Text) → Keeps I (modify (use_verification_token t))
  uses_token-Keeps t = Keeps-modify _ (w.uses_token t)

  uses_reset_token-Keeps : (t : Text) → Keeps I (modify (use_reset_token t))
  uses_reset_token-Keeps t = Keeps-modify _ (w.uses_reset_token t)

  adds_request-Keeps : (r : EmailChangeRequest) → Keeps I (modify (add_email_change_request r))
  adds_request-Keeps r = Keeps-modify _ (w.adds_request r)

  completes-Keeps : (id : ℕ) → Keeps I (modify (complete_request id))
  completes-Keeps id = Keeps-modify _ (w.completes id)

  change_email-Keeps : (email : Text) (u : User) → Keeps I (change_email email u)
  unfolding change_email
  change_email-Keeps email u = search (read_rules, with_email-Keeps) depth 10

  pub update_user_email-Keeps :
      (c : Bcrypt) (email plain new_email : Text)
      → Keeps I (update_user_email c email plain new_email)
  unfolding update_user_email
  update_user_email-Keeps c email plain new_email = search (read_rules, change_email-Keeps) depth 10

  delete_found-Keeps : (u : User) → Keeps I (delete_found u)
  unfolding delete_found
  delete_found-Keeps u = search (read_rules, deletes-Keeps) depth 10

  pub delete_user-Keeps : (c : Bcrypt) (email plain : Text) → Keeps I (delete_user c email plain)
  unfolding delete_user
  delete_user-Keeps c email plain = search (read_rules, delete_found-Keeps) depth 10

  issue_token-Keeps :
      (now : ℕ) (token : Text) (user : ℕ) (found : Option User)
      → Keeps I (issue_token now token user found)
  unfolding issue_token
  issue_token-Keeps now token user none = search read_rules
  issue_token-Keeps now token user (some u) =
      search (read_rules, deletes_tokens-Keeps, adds_token-Keeps) depth 10

  create_verification_token-Keeps :
      (now : ℕ) (token : Text) (user : ℕ) → Keeps I (create_verification_token now token user)
  unfolding create_verification_token
  create_verification_token-Keeps now token user = search (read_rules, issue_token-Keeps) depth 10

  pub send_verification_email-Keeps :
      (now : ℕ) (token : Text) (mail : Result (Unit {0})) (u : User)
      → Keeps I (send_verification_email now token mail u)
  unfolding send_verification_email
  send_verification_email-Keeps now token mail u =
      search (read_rules, create_verification_token-Keeps) depth 10

  redeem_reset_token-Keeps : (now : ℕ) (r : Option Token) → Keeps I (redeem_reset_token now r)
  unfolding redeem_reset_token
  redeem_reset_token-Keeps now none = search read_rules
  redeem_reset_token-Keeps now (some r) = search (read_rules, uses_reset_token-Keeps) depth 10

  pub verify_reset_token-Keeps : (now : ℕ) (token : Text) → Keeps I (verify_reset_token now token)
  unfolding verify_reset_token
  verify_reset_token-Keeps now token = search (read_rules, redeem_reset_token-Keeps) depth 10

  create_reset_for-Keeps : (found : Option User) → Keeps I (create_reset_for found)
  unfolding create_reset_for
  create_reset_for-Keeps none = search read_rules
  create_reset_for-Keeps (some u) = search read_rules

  pub create_password_reset_token-Keeps :
      (email : Text) → Keeps I (create_password_reset_token email)
  unfolding create_password_reset_token
  create_password_reset_token-Keeps email = search (read_rules, create_reset_for-Keeps) depth 10

  send_change_mail-Keeps :
      (now : ℕ) (token : Text) (mail : Result (Unit {0})) (found : Option User)
      → Keeps I (send_change_mail now token mail found)
  unfolding send_change_mail
  send_change_mail-Keeps now token mail none = search read_rules
  send_change_mail-Keeps now token mail (some u) = search read_rules

  request_email_change-Keeps :
      (now : ℕ) (token : Text) (mail : Result (Unit {0})) (user : ℕ) (new_email current : Text)
      → Keeps I (request_email_change now token mail user new_email current)
  unfolding request_email_change
  request_email_change-Keeps now token mail user new_email current =
      search (read_rules, adds_request-Keeps, send_change_mail-Keeps) depth 12

  pub create_email_change_request-Keeps :
      (now : ℕ) (token : Text) (mail : Result (Unit {0})) (user : ℕ) (new_email current : Text)
      → Keeps I (create_email_change_request now token mail user new_email current)
  unfolding create_email_change_request
  create_email_change_request-Keeps now token mail user new_email current =
      search (read_rules, request_email_change-Keeps) depth 10

  apply_change-Keeps :
      (r : EmailChangeRequest) (u : User) (is_taken : Bool) → Keeps I (apply_change r u is_taken)
  unfolding apply_change
  apply_change-Keeps r u true = search (read_rules, completes-Keeps) depth 10
  apply_change-Keeps r u false = search (read_rules, completes-Keeps, with_new_email-Keeps) depth 10

  change_for-Keeps : (r : EmailChangeRequest) (found : Option User) → Keeps I (change_for r found)
  unfolding change_for
  change_for-Keeps r none = search read_rules
  change_for-Keeps r (some u) = search (read_rules, apply_change-Keeps) depth 10

  change_found-Keeps :
      (now : ℕ) (found : Option EmailChangeRequest) → Keeps I (change_found now found)
  unfolding change_found
  change_found-Keeps now none = search read_rules
  change_found-Keeps now (some r) = search (read_rules, change_for-Keeps) depth 10

  pub verify_email_change-Keeps : (now : ℕ) (token : Text) → Keeps I (verify_email_change now token)
  unfolding verify_email_change
  verify_email_change-Keeps now token = search (read_rules, change_found-Keeps) depth 10
