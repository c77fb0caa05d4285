-- ===== src/Accounts/Requests/Writes/Current.antt =====
-- The row of the current user (app/core/auth.py), which the routes for Google's accounts need.
use mathlib.Core.Path.{subst}
use fastapi_auth_service.Prelude.{
  ℕ, Bool, true, false, not, ◌||◌, ◌&&◌, ◌≡◌, refl, sym, ◌∙◌, Option, none, some, List, [], ◌∷◌,
  ◌==◌, any, select, arith, ==_refl, if◌then◌else◌,
}
use fastapi_auth_service.Db.Schema.{Text, Db, User, truthy}
use fastapi_auth_service.Db.Session.{http, ok, err, lift}
use fastapi_auth_service.Db.Ensures.{
  Ensures, Anything, Ensures-bind, Ensures-lift, Ensures-query, Ensures-scalar, Ensures-pure,
}
use fastapi_auth_service.Db.Keeps.{keeps_rules}
use fastapi_auth_service.Accounts.{Bcrypt, get_user_by_email, or_401}
use fastapi_auth_service.Accounts.Users.{is_google, authenticate_found, authenticate_user}
use fastapi_auth_service.Accounts.Jwt.{Jose}
use fastapi_auth_service.Accounts.Auth.{get_current_user, get_current_active_user}
use fastapi_auth_service.Accounts.Routes.{Context, active_user}
use fastapi_auth_service.Accounts.Requests.Rules.{has_password, may_enter, can_enter}

any-select : (p q : User → Bool) (l : List User) → any q (select p l) ≡ true → any q l ≡ true
any-select p q [] h = h
any-select p q (u ∷ l) h = grind (arith, any-select p q l)

select-email :
    (k : Text) (u : User) (m l : List User) → select (λ r. r.email == k) l ≡ u ∷ m → u.email ≡ k
select-email k u m [] e = absurd (cc e)
select-email k u m (x ∷ l) e = grind (arith, select-email k u m l)

-- The user whose address it is, alone.
abbrev pub IsRow : User → Db → Type 0
IsRow u d = select (λ r. r.email == u.email) d.users ≡ u ∷ []

abbrev pub IsRowOf : Option User → Db → Type 0
IsRowOf none d = Unit
IsRowOf (some u) d = IsRow u d

pub has_password-IsRow :
    (u : User) (d : Db) → IsRow u d → truthy u.hashed_password ≡ true → has_password u.id d ≡ true
has_password-IsRow u d only h =
    any-select (λ r. r.email == u.email) (λ r. r.id == u.id && truthy r.hashed_password) d.users
      (rw only (rw (==_refl u.id) (rw h refl)))

can_enter-IsRow : (u : User) (d : Db) → IsRow u d → may_enter u ≡ true → can_enter u.id d ≡ true
can_enter-IsRow u d only h =
    any-select (λ r. r.email == u.email) (λ r. r.id == u.id && may_enter r) d.users
      (rw only (rw (==_refl u.id) (rw h refl)))

IsRow-email :
    (email : Text) (u : User) (d : Db) → select (λ r. r.email == email) d.users ≡ u ∷ [] → IsRow u d
IsRow-email email u d only =
    subst (λ k. select (λ r. r.email == k) d.users ≡ u ∷ [])
      (sym (select-email email u [] d.users only)) only

ok-injective : (v u : User) → ok v ≡ ok u → u ≡ v
ok-injective v u e = cc e

moved : (Q : User → Type 0) (v u : User) → ok v ≡ ok u → Q v → Q u
moved Q v u e r = subst Q (sym (ok-injective v u e)) r

checked_user : (b : Bool) (u v : User) → (if b then ok u else err (http 403)) ≡ ok v → ok u ≡ ok v
checked_user true u v e = e
checked_user false u v e = absurd (cc e)

module _ {I : Db → Type 0} where
  get_user_by_email-IsRow : (email : Text) → Ensures I Anything (get_user_by_email email) IsRowOf
  unfolding get_user_by_email
  get_user_by_email-IsRow email = Ensures-bind _ _ (Ensures-query _) (λ rows.
      Ensures-scalar rows (λ d i r e. tt) (λ u d i r e. IsRow-email email u d (sym r.1 ∙ e)))

  or_401-IsRow : (found : Option User) → Ensures I (IsRowOf found) (lift (or_401 found)) IsRow
  unfolding or_401
  or_401-IsRow none = Ensures-lift _ (λ u d i r e. absurd (cc e))
  or_401-IsRow (some v) = Ensures-lift _ (λ u d i r e. moved (λ w. IsRow w d) v u e r)

  get_current_user-IsRow :
      (j : Jose) (now : ℕ) (t : Text) → Ensures I Anything (get_current_user j now t) IsRow
  unfolding get_current_user
  get_current_user-IsRow j now t =
      Ensures-bind _ _ (search keeps_rules)
        (λ subject. Ensures-bind _ _ (get_user_by_email-IsRow subject) or_401-IsRow)

  pub active_user-IsRow : (x : Context) (t : Text) → Ensures I Anything (active_user x t) IsRow
  unfolding active_user get_current_active_user
  active_user-IsRow x t = Ensures-bind _ _ (get_current_user-IsRow x.jose x.now t) (λ u.
      Ensures-lift _ (λ v d i r e. moved (λ w. IsRow w d) u v (checked_user u.is_verified u v e) r))

-- What `authenticate_user` returns for the current user's address is the current user.
abbrev pub Entered : User → Option User → Db → Type 0
Entered u none d = Unit
Entered u (some v) d = can_enter u.id d ≡ true

-- The row that is found for the address of `u`.
abbrev pub FoundRow : User → Option User → Db → Type 0
FoundRow u none d = Unit
FoundRow u (some v) d = IsRow u d × (v ≡ u)

only_one : (v u : User) → v ∷ [] ≡ u ∷ [] → v ≡ u
only_one v u e = cc e

may_enter_if : (w t g : Bool) → (w || not t && g) ≡ false → (t || not g) ≡ true
may_enter_if w t g h = ground arith

Entered-if :
    (u v : User) (b : Bool) (d : Db)
    → (b ≡ false → can_enter u.id d ≡ true)
    → Entered u (if b then none else some v) d
Entered-if u v true d h = tt
Entered-if u v false d h = h refl

entered :
    (u v : User) (wrong : Bool) (d : Db)
    → IsRow u d
    → v ≡ u
    → Entered u
        (if wrong || not (truthy v.hashed_password) && is_google v.auth_type then none else some v)
        d
entered u v wrong d row same = Entered-if u v _ d (λ h. can_enter-IsRow u d row (
    subst (λ w. may_enter w ≡ true) same
      (may_enter_if wrong (truthy v.hashed_password) (is_google v.auth_type) h)))

module _ {I : Db → Type 0} (c : Bcrypt) (u : User) where
  get_user_by_email-FoundRow : Ensures I (IsRow u) (get_user_by_email u.email) (FoundRow u)
  unfolding get_user_by_email
  get_user_by_email-FoundRow = Ensures-bind _ _ (Ensures-query _) (λ rows.
      Ensures-scalar rows (λ d i r e. tt) (λ v d i r e. (r.0, only_one v u (sym e ∙ r.1 ∙ r.0))))

  authenticate_found-Entered :
      (plain : Text) (found : Option User)
      → Ensures I (FoundRow u found) (authenticate_found c plain found) (Entered u)
  unfolding authenticate_found
  authenticate_found-Entered plain none = Ensures-pure _ (λ d i r. tt)
  authenticate_found-Entered plain (some v) =
      Ensures-bind {Q = λ _ d. IsRow u d × (v ≡ u)} _ _ (Ensures-lift _ (λ b d i r e. r))
        (λ wrong. Ensures-pure _ (λ d i r. entered u v wrong d r.0 r.1))

  pub authenticate_user-Entered :
      (plain : Text) → Ensures I (IsRow u) (authenticate_user c u.email plain) (Entered u)
  unfolding authenticate_user
  authenticate_user-Entered plain =
      Ensures-bind _ _ get_user_by_email-FoundRow (authenticate_found-Entered plain)

  pub or_401-Entered :
      (found : Option User)
      → Ensures I (Entered u found) (lift (or_401 found)) (λ _ d. can_enter u.id d ≡ true)
  unfolding or_401
  or_401-Entered none = Ensures-lift _ (λ v d i r e. absurd (cc e))
  or_401-Entered (some w) = Ensures-lift _ (λ v d i r e. r)
