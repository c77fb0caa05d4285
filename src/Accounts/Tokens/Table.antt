-- ===== src/Accounts/Tokens/Table.antt =====
-- The verification tokens as a table from texts to the owners and expiries of what may still be
-- redeemed, and the writes of app/services/user_service.py to it.
use fastapi_auth_service.Prelude.{
  ℕ, ◌≡◌, refl, true, false, not, ◌&&◌, ◌||◌, Option, none, some, List, [], ◌∷◌, ◌++◌, ◌==◌, map,
  select, any, update_where, head_option, unique, if◌then◌else◌, arith,
}
use fastapi_auth_service.Db.Schema.{Text, Db, User, Token, constraints}
use fastapi_auth_service.Db.Tables.{set_user}
use fastapi_auth_service.Accounts.Tokens.{
  is_live_token, use_token, delete_unused_tokens, add_verification_token, mark_verified,
  use_verification_token,
}

-- The owner and the expiry of the tokens that may be redeemed.
abbrev pub TokenView : Type 0
TokenView = Text → Option (ℕ × ℕ)

abbrev pub owner_and_expiry : Option Token → Option (ℕ × ℕ)
owner_and_expiry none = none
owner_and_expiry (some r) = some (r.user_id, r.expires_at)

abbrev pub live : Text → List Token → Option (ℕ × ℕ)
live t l = owner_and_expiry (head_option (select (is_live_token t) l))

abbrev pub view : Db → TokenView
view d t = live t d.verification_tokens

abbrev pub unless_owned : ℕ → Option (ℕ × ℕ) → Option (ℕ × ℕ)
unless_owned user none = none
unless_owned user (some (owner, expiry)) = if owner == user then none else some (owner, expiry)

-- A new token takes the place of the user's others.
abbrev pub issue : Text → ℕ → ℕ → TokenView → TokenView
issue token user expiry v t = if t == token then some (user, expiry) else unless_owned user (v t)

abbrev pub redeem : Text → TokenView → TokenView
redeem token v t = if t == token then none else v t

abbrev pub tokens : List Token → List Text
tokens l = map (λ r. r.token) l

no-token :
    (t : Text) (l : List Token)
    → any (λ j. j == t) (tokens l) ≡ false
    → select (is_live_token t) l ≡ []
no-token t [] h = refl
no-token t (r ∷ l) h = grind (arith, no-token t l)

pub no_token-delete :
    (t : Text) (user : ℕ) (l : List Token)
    → any (λ j. j == t) (tokens l) ≡ false
    → any (λ j. j == t) (tokens (select (λ r. not (r.user_id == user && not r.used)) l)) ≡ false
no_token-delete t user [] h = refl
no_token-delete t user (r ∷ l) h = grind (arith, no_token-delete t user l)

pub live-append :
    (t : Text) (r : Token) (l : List Token)
    → r.used ≡ false
    → any (λ j. j == r.token) (tokens l) ≡ false
    → live t (l ++ r ∷ []) ≡ (if t == r.token then some (r.user_id, r.expires_at) else live t l)
live-append t r [] u h = grind arith
live-append t r (x ∷ l) u h = grind (arith, live-append t r l)

pub live-delete :
    (t : Text) (user : ℕ) (l : List Token)
    → unique (tokens l) ≡ true
    → live t (select (λ r. not (r.user_id == user && not r.used)) l) ≡ unless_owned user (live t l)
live-delete t user [] u = refl
live-delete t user (x ∷ l) u =
    grind (arith, live-delete t user l, no-token t l, no_token-delete t user l)

pub live-use :
    (t token : Text) (l : List Token)
    → live t (update_where (λ r. r.token == token) use_token l)
      ≡ (if t == token then none else live t l)
live-use t token [] = grind arith
live-use t token (x ∷ l) = grind (arith, live-use t token l)

any-tokens_append :
    (t : Text) (r : Token) (l : List Token)
    → any (λ j. j == t) (tokens (l ++ r ∷ [])) ≡ (any (λ j. j == t) (tokens l) || r.token == t)
any-tokens_append t r [] = grind arith
any-tokens_append t r (x ∷ l) = grind (arith, any-tokens_append t r l)

unique-append :
    (r : Token) (l : List Token)
    → any (λ j. j == r.token) (tokens l) ≡ false
    → unique (tokens l) ≡ true
    → unique (tokens (l ++ r ∷ [])) ≡ true
unique-append r [] h u = refl
unique-append r (x ∷ l) h u = grind (arith, unique-append r l, any-tokens_append x.token r l)

unique-delete :
    (user : ℕ) (l : List Token)
    → unique (tokens l) ≡ true
    → unique (tokens (select (λ r. not (r.user_id == user && not r.used)) l)) ≡ true
unique-delete user [] u = refl
unique-delete user (x ∷ l) u = grind (arith, unique-delete user l, no_token-delete x.token user l)

tokens-use :
    (t : Text) (l : List Token) → tokens (update_where (λ r. r.token == t) use_token l) ≡ tokens l
tokens-use t [] = refl
tokens-use t (x ∷ l) = grind (arith, tokens-use t l)

emails-verified :
    (id : ℕ) (l : List User)
    → map (λ u. u.email) (update_where (λ u. u.id == id) mark_verified l) ≡ map (λ u. u.email) l
emails-verified id [] = refl
emails-verified id (x ∷ l) = grind (arith, emails-verified id l)

google_ids-verified :
    (id : ℕ) (l : List User)
    → map (λ u. u.google_id) (update_where (λ u. u.id == id) mark_verified l)
      ≡ map (λ u. u.google_id) l
google_ids-verified id [] = refl
google_ids-verified id (x ∷ l) = grind (arith, google_ids-verified id l)

pub unique-tokens : (d : Db) → constraints d ≡ true → unique (tokens d.verification_tokens) ≡ true
unfolding constraints
unique-tokens d h = grind arith

pub constraints-issue :
    (r : Token) (user : ℕ) (d : Db)
    → any (λ j. j == r.token) (tokens d.verification_tokens) ≡ false
    → constraints d ≡ true
    → constraints (add_verification_token r (delete_unused_tokens user d)) ≡ true
unfolding constraints
constraints-issue r user d new h =
    rw
      (unique-append r _ (no_token-delete r.token user d.verification_tokens new)
        (unique-delete user d.verification_tokens (unique-tokens d h)))
      (grind arith)

pub constraints-redeem :
    (id : ℕ) (t : Text) (d : Db)
    → constraints (use_verification_token t (set_user id mark_verified d)) ≡ constraints d
unfolding constraints set_user
constraints-redeem id t d =
    rw
      (
        emails-verified id d.users,
        google_ids-verified id d.users,
        tokens-use t d.verification_tokens,
      )
      refl
