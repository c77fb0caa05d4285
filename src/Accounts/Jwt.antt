-- ===== src/Accounts/Jwt.antt =====
-- `create_access_token` and `verify_jwt_token` (app/core/security.py). The library jose, with the
-- secret key and the algorithm of the settings, is a parameter. `now` is a number of seconds.
pub mod Expiry
use fastapi_auth_service.Prelude.{
  ℕ, ◌+◌, ◌*◌, Bool, true, false, not, Option, none, some, ◌==◌, ltb, if◌then◌else◌,
}
use fastapi_auth_service.Db.Schema.{Text, truthy}

-- The claims that the service writes and reads; `none` is an absent claim.
pub record Claims : Type 0 where
  pub sub : Option Text
  pub id : Option ℕ
  pub is_admin : Option Bool
  pub exp : Option ℕ

-- `jwt.encode` and `jwt.decode` without a test of `exp`, the signature verified or not; `none` is a
-- `JWTError`.
pub record Jose : Type 0 where
  pub encode : Claims → Text
  pub decode : Bool → Text → Option Claims

-- `ExpiredSignatureError` and any other `JWTError`.
pub data Verdict : Type 0 where
  expired invalid : Verdict
  valid : Claims → Verdict

-- The seconds that a token is accepted after its expiry.
abbrev pub skew : ℕ
skew = 30

-- `if expires_delta:`: a duration of zero counts as none.
abbrev pub lifetime : Option ℕ → ℕ
lifetime expires_delta = elim expires_delta [
  | none ↦ 15 * 60
  | some delta ↦ if delta == 0 then 15 * 60 else delta
]

module _ (j : Jose) (now : ℕ) where
  unfoldable pub create_access_token : Claims → Option ℕ → Text
  create_access_token claims expires_delta =
      j.encode (record claims { exp = some (now + lifetime expires_delta) })

  unfoldable pub check_signature : Option Claims → Verdict
  check_signature none = invalid
  check_signature (some payload) = valid payload

  unfoldable pub check_expiry : Text → Option ℕ → Verdict
  unfolding check_signature
  check_expiry token none = invalid
  check_expiry token (some exp) =
      if ltb (exp + skew) now then expired else check_signature (j.decode true token)

  unfoldable pub check_unverified : Text → Option Claims → Verdict
  unfolding check_expiry
  check_unverified token none = invalid
  check_unverified token (some unverified) = check_expiry token unverified.exp

  unfoldable pub verify_jwt_token : Text → Verdict
  unfolding check_unverified
  verify_jwt_token token = check_unverified token (j.decode false token)
