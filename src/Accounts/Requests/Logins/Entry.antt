-- ===== src/Accounts/Requests/Logins/Entry.antt =====
-- `UserService.authenticate_user` (app/services/user_service.py) on a database of accounts.
use fastapi_auth_service.Prelude.{
  ◌⊎◌, Option, none, some, if◌then◌else◌, Bool-cases, inl, inr, ◌≡◌, refl, Bool, true, false, ◌&&◌,
  ◌||◌, List, [], ◌∷◌, ◌==◌, select, all, arith, is_some,
}
use fastapi_auth_service.Db.Schema.{Text, Db, User, truthy}
use fastapi_auth_service.Db.Session.{Exn, Result, ok, err, fresh, ◌>>=◌}
use fastapi_auth_service.Accounts.{Bcrypt, get_user_by_email, verify_password}
use fastapi_auth_service.Accounts.Users.{
  authenticate_user, authenticate_found, is_wrong_password, is_google,
}
use fastapi_auth_service.Accounts.Requests.Rules.{has_login}
use fastapi_auth_service.Accounts.Requests.Logins.{IsAccounted}

select-all :
    (q p : User → Bool) (u : User) (m l : List User)
    → select p l ≡ u ∷ m
    → all q l ≡ true
    → q u ≡ true
select-all q p u m [] e h = absurd (cc e)
select-all q p u m (x ∷ l) e h = grind (arith, select-all q p u m l)

google_only : (t s g : Bool) → (t || s && g) ≡ true → t ≡ false → g ≡ true
google_only t s g h f = ground arith

check-cases : (r : Result Bool) → ((r ≡ ok true) ⊎ (r ≡ ok false)) ⊎ ((e : Exn) × (r ≡ err e))
check-cases (ok true) = inl (inl refl)
check-cases (ok false) = inl (inr refl)
check-cases (err e) = inr (e, refl)

-- The answer of a login, by whether the account has a password and what bcrypt says of it.
abbrev pub answer : User → Result Bool → Result (Option User)
answer u (ok same) = ok (if same then some u else none)
answer u (err e) = err e

-- In a database in which every account has a password or is one of Google only, authenticate_user
-- of an address that one user has returns that user only where there is a password and bcrypt
-- accepts the one given; an account without a password is refused, an exception of bcrypt passes,
-- and nothing changes.
pub authenticate_user-IsAccounted :
    (c : Bcrypt) (email plain : Text) (u : User) (d : Db)
    → IsAccounted d
    → select (λ r. r.email == email) d.users ≡ u ∷ []
    → authenticate_user c email plain (fresh d) ≡ (
      (if truthy u.hashed_password
          then answer u (verify_password c plain u.hashed_password)
          else ok none),
      fresh d,
    )
unfolding authenticate_user authenticate_found is_wrong_password get_user_by_email ◌>>=◌
authenticate_user-IsAccounted c email plain u d h only =
    elim (Bool-cases (truthy u.hashed_password)) [
      | inl stored ↦ elim (check-cases (verify_password c plain u.hashed_password)) [
        | inl (inl same) ↦ rw (only, stored, same) refl
        | inl (inr different) ↦ rw (only, stored, different) refl
        | inr (e, failed) ↦ rw (only, stored, failed) refl
      ]
      | inr absent ↦
          rw
            (
              only,
              absent,
              google_only (truthy u.hashed_password) (is_some u.google_id) (is_google u.auth_type)
                  (select-all has_login (λ r. r.email == email) u [] d.users only h.reachable)
                  absent,
            )
            refl
    ]
