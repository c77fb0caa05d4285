-- ===== src/Accounts/Google/Again.antt =====
-- `find_or_create_user` (app/services/oauth_service.py) for a profile that it has seen.
use fastapi_auth_service.Prelude.{
  ◌≡◌, refl, sym, ap, ◌∙◌, true, false, ◌||◌, none, some, ◌+◌, List, [], ◌∷◌, ◌++◌, ◌==◌, any,
  select, map, unique, unique_set, eq_option, arith, ==_refl, Option-cases, inl, inr,
}
use fastapi_auth_service.Db.Schema.{Text, Db, User, AuthType, AccountStatus, constraints}
use fastapi_auth_service.Db.Tables.{add_user}
use fastapi_auth_service.Db.Session.{ok, fresh, after, ◌>>=◌}
use fastapi_auth_service.Accounts.Google.{
  Profile, create_from_profile, link_or_create, found_or_by_email, find_or_create_user,
}

-- A user whose address and identifier at Google no row has.
module _ (u : User) (sub : Text) (email : Text) (same : u.google_id ≡ some sub)
    (own : u.email ≡ email) where
  any-emails :
      (k : Text) (l : List User)
      → any (λ j. j == k) (map (λ r. r.email) (l ++ u ∷ []))
        ≡ (any (λ j. j == k) (map (λ r. r.email) l) || email == k)
  any-emails k [] = grind arith
  any-emails k (x ∷ l) = grind (arith, any-emails k l)

  unique-emails :
      (l : List User)
      → select (λ r. r.email == email) l ≡ []
      → unique (map (λ r. r.email) l) ≡ true
      → unique (map (λ r. r.email) (l ++ u ∷ [])) ≡ true
  unique-emails [] e h = refl
  unique-emails (x ∷ l) e h = grind (arith, unique-emails l, any-emails x.email l)

  any-google_ids :
      (k : Text) (l : List User)
      → any (eq_option (some k)) (map (λ r. r.google_id) (l ++ u ∷ []))
        ≡ (any (eq_option (some k)) (map (λ r. r.google_id) l) || k == sub)
  any-google_ids k [] = grind arith
  any-google_ids k (x ∷ l) = grind (arith, any-google_ids k l)

  unique-google_ids :
      (l : List User)
      → select (λ r. eq_option r.google_id (some sub)) l ≡ []
      → unique_set (map (λ r. r.google_id) l) ≡ true
      → unique_set (map (λ r. r.google_id) (l ++ u ∷ [])) ≡ true
  unique-google_ids [] e h = rw same refl
  unique-google_ids (x ∷ l) e h = elim (Option-cases x.google_id) [
    | inl absent ↦ rw absent (grind (arith, unique-google_ids l))
    | inr (k, present) ↦ rw present (grind (arith, unique-google_ids l, any-google_ids k l))
  ]

  select-google_id :
      (l : List User)
      → select (λ r. eq_option r.google_id (some sub)) l ≡ []
      → select (λ r. eq_option r.google_id (some sub)) (l ++ u ∷ []) ≡ u ∷ []
  select-google_id [] e = rw (same, ==_refl sub) refl
  select-google_id (x ∷ l) e = grind (arith, select-google_id l)

module _ (sub email : Text) (d : Db)
    (no_id : select (λ u. eq_option u.google_id (some sub)) d.users ≡ [])
    (no_email : select (λ u. u.email == email) d.users ≡ []) (valid : constraints d ≡ true) where
  -- Google's profile with both keys.
  abbrev pub profile : Profile
  profile = record { sub = some sub; email = some email }

  abbrev pub new_user : User
  new_user = record {
    id = d.next_id;
    email = email;
    hashed_password = none;
    google_id = some sub;
    auth_type = AuthType.google;
    is_admin = false;
    is_verified = true;
    stripe_customer_id = none;
    account_status = AccountStatus.active;
    has_consumed_initial_trial = false;
  }

  constraints-new : constraints (add_user new_user d) ≡ true
  unfolding constraints
  constraints-new =
      rw
        (
          unique-emails new_user sub email refl refl d.users no_email (grind arith),
          unique-google_ids new_user sub email refl refl d.users no_id (grind arith),
        )
        (grind arith)

  find_or_create_user-new :
      find_or_create_user profile (fresh d) ≡ (ok new_user, fresh (add_user new_user d))
  unfolding find_or_create_user found_or_by_email link_or_create create_from_profile ◌>>=◌
  find_or_create_user-new = rw (no_id, no_email, constraints-new) refl

  find_or_create_user-found :
      find_or_create_user profile (fresh (add_user new_user d))
      ≡ (ok new_user, fresh (add_user new_user d))
  unfolding find_or_create_user found_or_by_email ◌>>=◌
  find_or_create_user-found = rw (select-google_id new_user sub email refl refl d.users no_id) refl

  -- For a profile whose identifier and address no user has, with the constraints met and the calls
  -- of the database succeeding, find_or_create_user commits one new user, with no password, the
  -- kind google, a verified address and no administrator, and otherwise no change; called again
  -- with the profile, it returns that user and changes nothing.
  pub find_or_create_user-again :
      (find_or_create_user profile (fresh d) ≡ (
        ok new_user,
        fresh (record d { users = d.users ++ new_user ∷ []; next_id = d.next_id + 1 }),
      ))
      × (find_or_create_user profile (fresh (after (find_or_create_user profile) d))
          ≡ (ok new_user, fresh (after (find_or_create_user profile) d)))
  find_or_create_user-again =
      let created : after (find_or_create_user profile) d ≡ add_user new_user d =
        ap (λ r. r.1.committed) find_or_create_user-new in
      (
        find_or_create_user-new,
        ap (λ e. find_or_create_user profile (fresh e)) created
            ∙ find_or_create_user-found
            ∙ ap (λ e. (ok new_user, fresh e)) (sym created),
      )
