-- ===== src/Accounts/Requests/Logins.antt =====
-- The ways to log in to the accounts of the database: a password, or an account at Google.
pub mod Entry
use fastapi_auth_service.Prelude.{
  ◌⊎◌, Option, none, some, if◌then◌else◌, Bool-cases, inl, inr, ℕ, ◌+◌, ◌≡◌, refl, Bool, true,
  false, not, ◌&&◌, ◌||◌, List, [], ◌∷◌, ◌++◌, ◌==◌, ltb, map, select, any, all, update_where,
  unique, arith, is_some,
}
use fastapi_auth_service.Db.Schema.{Text, Db, User, truthy}
use fastapi_auth_service.Db.Tables.{set_user, add_user}
use fastapi_auth_service.Db.Session.{Exn, Result, ok, err, fresh, ◌>>=◌}
use fastapi_auth_service.Accounts.{Bcrypt, get_user_by_email, verify_password}
use fastapi_auth_service.Accounts.Users.{
  authenticate_user, authenticate_found, is_wrong_password, is_google, without_user,
}
use fastapi_auth_service.Accounts.Google.{Profile, linked, unlinked}
use fastapi_auth_service.Accounts.Requests.{AccountIncoming, serve_accounts}
use fastapi_auth_service.Accounts.Requests.Rules.{has_login, may_enter, KeepsLogin, AccountWrites}
use fastapi_auth_service.Accounts.Requests.Invariant.{AreDocumented, serve_accounts-Keeps}

abbrev pub key : User → ℕ
key u = u.id

-- The keys of the users are distinct and below the next one, and every user has a way to log in.
pub record IsAccounted (d : Db) : Type 0 where
  pub below : all (λ u. ltb u.id d.next_id) d.users ≡ true
  pub distinct : unique (map key d.users) ≡ true
  pub reachable : all has_login d.users ≡ true

below-suc :
    (n : ℕ) (l : List User) → all (λ u. ltb u.id n) l ≡ true → all (λ u. ltb u.id (n + 1)) l ≡ true
below-suc n [] h = refl
below-suc n (u ∷ l) h = grind (arith, below-suc n l)

below-append :
    (u : User) (l : List User)
    → all (λ r. ltb r.id u.id) l ≡ true
    → all (λ r. ltb r.id (u.id + 1)) (l ++ u ∷ []) ≡ true
below-append u [] h = grind arith
below-append u (r ∷ l) h = grind (arith, below-append u l)

any-append :
    (k : ℕ) (u : User) (l : List User)
    → any (λ j. j == k) (map key (l ++ u ∷ [])) ≡ (any (λ j. j == k) (map key l) || u.id == k)
any-append k u [] = grind arith
any-append k u (r ∷ l) = grind (arith, any-append k u l)

unique-append :
    (u : User) (l : List User)
    → all (λ r. ltb r.id u.id) l ≡ true
    → unique (map key l) ≡ true
    → unique (map key (l ++ u ∷ [])) ≡ true
unique-append u [] h d = refl
unique-append u (r ∷ l) h d = grind (arith, unique-append u l, any-append r.id u l)

reachable-append :
    (u : User) (l : List User)
    → has_login u ≡ true
    → all has_login l ≡ true
    → all has_login (l ++ u ∷ []) ≡ true
reachable-append u [] h k = grind arith
reachable-append u (r ∷ l) h k = grind (arith, reachable-append u l)

module _ (id : ℕ) (f : User → User) (keeps : (u : User) → (f u).id ≡ u.id) where
  below-update :
      (n : ℕ) (l : List User)
      → all (λ u. ltb u.id n) (update_where (λ u. u.id == id) f l) ≡ all (λ u. ltb u.id n) l
  below-update n [] = refl
  below-update n (u ∷ l) = grind (arith, below-update n l, keeps u)

  keys-update : (l : List User) → map key (update_where (λ u. u.id == id) f l) ≡ map key l
  keys-update [] = refl
  keys-update (u ∷ l) = grind (arith, keys-update l, keeps u)

reachable-update :
    (id : ℕ) (f : User → User) (l : List User)
    → KeepsLogin f
    → all has_login l ≡ true
    → all has_login (update_where (λ u. u.id == id) f l) ≡ true
reachable-update id f [] k h = refl
reachable-update id f (u ∷ l) k h = grind (arith, reachable-update id f l k, k.login u)

all-absent :
    (q : User → Bool) (id : ℕ) (f : User → User) (l : List User)
    → any (λ j. j == id) (map key l) ≡ false
    → all q (update_where (λ u. u.id == id) f l) ≡ all q l
all-absent q id f [] h = refl
all-absent q id f (u ∷ l) h = grind (arith, all-absent q id f l)

-- A row that `p` picks out, of a key that it has alone, and a write that `p` allows.
module _ (id : ℕ) (q p : User → Bool) (f : User → User) where
  any-key :
      (l : List User)
      → any (λ u. u.id == id && p u) l ≡ true
      → any (λ j. j == id) (map key l) ≡ true
  any-key [] h = h
  any-key (u ∷ l) h = grind (arith, any-key l)

  all-picked :
      (l : List User)
      → ((u : User) → q u ≡ true → p u ≡ true → q (f u) ≡ true)
      → unique (map key l) ≡ true
      → any (λ u. u.id == id && p u) l ≡ true
      → all q l ≡ true
      → all q (update_where (λ u. u.id == id) f l) ≡ true
  all-picked [] k d e h = refl
  all-picked (u ∷ l) k d e h = grind (arith, all-picked l k, any-key l, all-absent q id f l, k u)

unlinked-has_login :
    (u : User)
    → has_login u ≡ true
    → truthy u.hashed_password ≡ true
    → has_login (unlinked u) ≡ true
unlinked-has_login u h t = rw t refl

enters : (t s g : Bool) → (t || s && g) ≡ true → (t || not g) ≡ true → t ≡ true
enters t s g h m = ground arith

linked-has_login :
    (p : Profile) (u : User)
    → has_login u ≡ true
    → may_enter u ≡ true
    → has_login (linked p u) ≡ true
linked-has_login p u h m =
    rw (enters (truthy u.hashed_password) (is_some u.google_id) (is_google u.auth_type) h m) refl

below-select :
    (n : ℕ) (p : User → Bool) (l : List User)
    → all (λ u. ltb u.id n) l ≡ true
    → all (λ u. ltb u.id n) (select p l) ≡ true
below-select n p [] h = refl
below-select n p (u ∷ l) h = grind (arith, below-select n p l)

reachable-select :
    (p : User → Bool) (l : List User) → all has_login l ≡ true → all has_login (select p l) ≡ true
reachable-select p [] h = refl
reachable-select p (u ∷ l) h = grind (arith, reachable-select p l)

any-select-key :
    (k : ℕ) (p : User → Bool) (l : List User)
    → any (λ j. j == k) (map key l) ≡ false
    → any (λ j. j == k) (map key (select p l)) ≡ false
any-select-key k p [] h = refl
any-select-key k p (u ∷ l) h = grind (arith, any-select-key k p l)

unique-select :
    (p : User → Bool) (l : List User)
    → unique (map key l) ≡ true
    → unique (map key (select p l)) ≡ true
unique-select p [] h = refl
unique-select p (u ∷ l) h = grind (arith, unique-select p l, any-select-key u.id p l)

instance logins_writes : AccountWrites IsAccounted
unfolding set_user
logins_writes = record {
  adds_user = λ u d login fresh h. record {
    below = rw⁻¹ fresh (below-append u d.users (rw fresh h.below));
    distinct = unique-append u d.users (rw fresh h.below) h.distinct;
    reachable = reachable-append u d.users login h.reachable;
  };
  changes_user = λ id f d k h. record {
    below = rw (below-update id f k.id d.next_id d.users) h.below;
    distinct = rw (keys-update id f k.id d.users) h.distinct;
    reachable = reachable-update id f d.users k h.reachable;
  };
  links = λ id p d e h. record {
    below = rw (below-update id (linked p) (λ u. refl) d.next_id d.users) h.below;
    distinct = rw (keys-update id (linked p) (λ u. refl) d.users) h.distinct;
    reachable =
        all-picked id has_login may_enter (linked p) d.users (linked-has_login p) h.distinct e
          h.reachable;
  };
  unlinks = λ id d p h. record {
    below = rw (below-update id unlinked (λ u. refl) d.next_id d.users) h.below;
    distinct = rw (keys-update id unlinked (λ u. refl) d.users) h.distinct;
    reachable =
        all-picked id has_login (λ u. truthy u.hashed_password) unlinked d.users unlinked-has_login
          h.distinct p h.reachable;
  };
  deletes_user = λ id d h. record {
    below = below-select d.next_id (λ u. not (u.id == id)) d.users h.below;
    distinct = unique-select (λ u. not (u.id == id)) d.users h.distinct;
    reachable = reachable-select (λ u. not (u.id == id)) d.users h.reachable;
  };
  adds_token = λ t d h. record { below = h.below; distinct = h.distinct; reachable = h.reachable };
  deletes_tokens =
      λ u d h. record { below = h.below; distinct = h.distinct; reachable = h.reachable };
  uses_token = λ t d h. record { below = h.below; distinct = h.distinct; reachable = h.reachable };
  uses_reset_token =
      λ t d h. record { below = h.below; distinct = h.distinct; reachable = h.reachable };
  adds_request = λ r d h. record {
    below = below-suc d.next_id d.users h.below;
    distinct = h.distinct;
    reachable = h.reachable;
  };
  completes = λ id d h. record { below = h.below; distinct = h.distinct; reachable = h.reachable };
}

-- If every user has a password, or an identifier at Google and the kind google, and the keys of
-- the users are distinct and taken, that is so after any sequence of account requests, whichever
-- calls of the database fail, where bcrypt returns no empty hash and the profiles of Google have a
-- sub.
pub serve_accounts-IsAccounted :
    (rs : List AccountIncoming) (d : Db)
    → AreDocumented rs
    → IsAccounted d
    → IsAccounted (serve_accounts rs d)
serve_accounts-IsAccounted rs d k h = serve_accounts-Keeps IsAccounted rs d k h
