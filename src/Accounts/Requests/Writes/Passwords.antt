-- ===== src/Accounts/Requests/Writes/Passwords.antt =====
-- The operations of app/services/user_service.py that store the hash of a password.
use fastapi_auth_service.Prelude.{
  ℕ, Bool, true, false, not, ◌||◌, ◌≡◌, refl, Option, none, some, ◌==◌, arith,
}
use fastapi_auth_service.Db.Schema.{Text, Db, User}
use fastapi_auth_service.Db.Tables.{set_user}
use fastapi_auth_service.Db.Session.{Result, ok, err, modify, lift}
use fastapi_auth_service.Db.Ensures.{
  Ensures, Anything, Keeps, Ensures-bind, Ensures-gets, Ensures-modify, Ensures-lift,
}
use fastapi_auth_service.Db.Keeps.{keeps_rules, Keeps-try}
use fastapi_auth_service.Accounts.{Bcrypt}
use fastapi_auth_service.Accounts.Users.{
  with_password, create_user, change_password, update_user_password, reset_found, reset_password,
}
use fastapi_auth_service.Accounts.Requests.Rules.{AccountWrites, is_hash}
use fastapi_auth_service.Accounts.Requests.Writes.{read_rules, rollback_and_400-Keeps}

hash_of : (r : Result Text) (h : Text) → is_hash r ≡ true → r ≡ ok h → not (h == 0) ≡ true
hash_of (ok g) h k e = grind arith
hash_of (err x) h k e = absurd (cc e)

or_left : (a b : Bool) → a ≡ true → (a || b) ≡ true
or_left a b h = rw h refl

module _ {I : Db → Type 0} ⦃w : AccountWrites I⦄ (c : Bcrypt)
    (hash : (plain : Text) → is_hash (c.hashpw plain) ≡ true) where
  lift_hash :
      (plain : Text) → Ensures I Anything (lift (c.hashpw plain)) (λ h _. not (h == 0) ≡ true)
  lift_hash plain = Ensures-lift _ (λ h d i r e. hash_of _ h (hash plain) e)

  stores-Keeps :
      (id : ℕ) (h : Text)
      → Ensures I (λ _. not (h == 0) ≡ true) (modify (set_user id (with_password h))) (λ _ _. Unit)
  stores-Keeps id h = Ensures-modify _ (λ d i k.
      (w.changes_user id _ d (record { id = λ u. refl; login = λ u _. or_left _ _ k }) i, tt))

  pub create_user-Keeps :
      (email plain : Text) (admin verified : Bool)
      → Keeps I (create_user c email plain admin verified)
  unfolding create_user
  create_user-Keeps email plain admin verified =
      Keeps-try _ _
        (Ensures-bind _ _ (lift_hash plain) (λ h.
          Ensures-bind {Q = λ id d. (not (h == 0) ≡ true) × (id ≡ d.next_id)} _ _ (Ensures-gets _)
            (λ id.
              Ensures-bind {Q = λ _ _. Unit} _ _
                (Ensures-modify _ (λ d i k. (w.adds_user _ d (or_left _ _ k.0) k.1 i, tt)))
                (λ _. search keeps_rules))))
        rollback_and_400-Keeps

  change_password-Keeps :
      (plain : Text) (u : User) (same : Bool) → Keeps I (change_password c plain u same)
  unfolding change_password
  change_password-Keeps plain u true = search read_rules
  change_password-Keeps plain u false =
      Ensures-bind _ _ (lift_hash plain)
        (λ h. Ensures-bind _ _ (stores-Keeps u.id h) (λ _. search keeps_rules))

  pub update_user_password-Keeps :
      (email plain new : Text) → Keeps I (update_user_password c email plain new)
  unfolding update_user_password
  update_user_password-Keeps email plain new = search (read_rules, change_password-Keeps) depth 10

  reset_found-Keeps : (plain : Text) (found : Option User) → Keeps I (reset_found c plain found)
  unfolding reset_found
  reset_found-Keeps plain none = search read_rules
  reset_found-Keeps plain (some u) =
      Ensures-bind _ _ (lift_hash plain)
        (λ h. Ensures-bind _ _ (stores-Keeps u.id h) (λ _. search keeps_rules))

  pub reset_password-Keeps : (user : ℕ) (plain : Text) → Keeps I (reset_password c user plain)
  unfolding reset_password
  reset_password-Keeps user plain = search (read_rules, reset_found-Keeps) depth 10
