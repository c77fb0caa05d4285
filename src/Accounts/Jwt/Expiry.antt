-- ===== src/Accounts/Jwt/Expiry.antt =====
-- The lifetime of the tokens of app/core/security.py, from issue to refusal.
use fastapi_auth_service.Prelude.{
  ℕ, ◌+◌, ◌≡◌, refl, Bool, true, false, Option, none, some, ltb, if◌then◌else◌, Bool-cases,
  Option-cases, inl, inr, select, ◌∷◌, [], ◌==◌,
}
use fastapi_auth_service.Db.Schema.{Text, Db, User}
use fastapi_auth_service.Db.Session.{http, ok, err, fresh, ◌>>=◌}
use fastapi_auth_service.Accounts.{get_user_by_email, or_401}
use fastapi_auth_service.Accounts.Jwt.{
  Claims, Jose, Verdict, expired, valid, skew, lifetime, create_access_token, check_expiry,
  check_signature, check_unverified, verify_jwt_token,
}
use fastapi_auth_service.Accounts.Auth.{subject_of, get_current_user}
use fastapi_auth_service.Accounts.Google.{claims_of}

-- `claims` with the expiry that `create_access_token` writes at `now`.
abbrev pub with_expiry : ℕ → Option ℕ → Claims → Claims
with_expiry now delta claims = record claims { exp = some (now + lifetime delta) }

-- Where jose decodes the token as it has encoded it, a token that create_access_token made is
-- accepted with its claims until 30 seconds after its lifetime, and is an expired one from then
-- on.
pub verify_jwt_token-create_access_token :
    (j : Jose) (now later : ℕ) (claims : Claims) (delta : Option ℕ)
    → ((b : Bool)
        → j.decode b (j.encode (with_expiry now delta claims))
          ≡ some (with_expiry now delta claims))
    → verify_jwt_token j later (create_access_token j now claims delta) ≡ (
        if ltb (now + lifetime delta + skew) later
        then expired
        else valid (with_expiry now delta claims))
unfolding verify_jwt_token create_access_token check_unverified check_expiry check_signature
verify_jwt_token-create_access_token j now later claims delta decodes =
    rw (decodes false, decodes true) refl

-- Whether the claims of an accepted token have an expiry that is not past by more than the skew.
abbrev pub is_current : ℕ → Verdict → Bool
is_current now (valid claims) = elim claims.exp [
  | none ↦ false
  | some exp ↦ if ltb (exp + skew) now then false else true
]
is_current now _ = true

-- Where jose returns the same claims whether it verifies the signature or not, verify_jwt_token
-- accepts no token without an expiry, and none later than 30 seconds after the expiry in its
-- claims.
pub verify_jwt_token-is_current :
    (j : Jose) (now : ℕ) (t : Text)
    → ((c : Claims) → j.decode true t ≡ some c → j.decode false t ≡ some c)
    → is_current now (verify_jwt_token j now t) ≡ true
unfolding verify_jwt_token check_unverified check_expiry check_signature
verify_jwt_token-is_current j now t same = elim (Option-cases (j.decode true t)) [
  | inl bad ↦ elim (Option-cases (j.decode false t)) [
    | inl unread ↦ rw unread refl
    | inr (c, read) ↦ elim (Option-cases c.exp) [
      | inl never ↦ rw (read, never) refl
      | inr (exp, e) ↦ elim (Bool-cases (ltb (exp + skew) now)) [
        | inl late ↦ rw (read, e, late) refl
        | inr early ↦ rw (read, e, early, bad) refl
      ]
    ]
  ]
  | inr (c, good) ↦ elim (Option-cases c.exp) [
    | inl never ↦ rw (same c good, never) refl
    | inr (exp, e) ↦ elim (Bool-cases (ltb (exp + skew) now)) [
      | inl late ↦ rw (same c good, e, late) refl
      | inr early ↦ rw (same c good, e, early, good, e, early) refl
    ]
  ]
]

-- Where jose decodes the token as it has encoded it, the token of a user whose address one row has
-- makes that user the current one until 30 seconds after its lifetime, and is answered with HTTP
-- 401 from then on, where the calls of the database succeed.
pub get_current_user-create_access_token :
    (j : Jose) (now later : ℕ) (u : User) (delta : Option ℕ) (d : Db)
    → ((b : Bool)
        → j.decode b (j.encode (with_expiry now delta (claims_of u)))
          ≡ some (with_expiry now delta (claims_of u)))
    → select (λ r. r.email == u.email) d.users ≡ u ∷ []
    → get_current_user j later (create_access_token j now (claims_of u) delta) (fresh d)
      ≡ ((if ltb (now + lifetime delta + skew) later then err (http 401) else ok u), fresh d)
unfolding get_current_user subject_of get_user_by_email or_401 ◌>>=◌
get_current_user-create_access_token j now later u delta d decodes only =
    elim (Bool-cases (ltb (now + lifetime delta + skew) later)) [
      | inl late ↦
          rw (verify_jwt_token-create_access_token j now later (claims_of u) delta decodes, late)
            refl
      | inr early ↦
          rw
            (
              verify_jwt_token-create_access_token j now later (claims_of u) delta decodes,
              early,
              only,
            )
            refl
    ]
