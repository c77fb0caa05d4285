-- ===== src/Accounts/Requests/Writes/Social.antt =====
-- `GoogleOAuthService` (app/services/oauth_service.py) and the current user (app/core/auth.py), whose
-- row `unlink_google_account` needs.
use fastapi_auth_service.Prelude.{
  Bool, true, false, ◌≡◌, refl, sym, ◌∙◌, ap, Option, none, some, ◌==◌, is_some, Bool-cases, inl,
  inr,
}
use fastapi_auth_service.Db.Schema.{Text, Db, User, truthy}
use fastapi_auth_service.Db.Session.{Result, ok, err, Exec, lift, ◌>>=◌}
use fastapi_auth_service.Db.Ensures.{
  Ensures, Keeps, Ensures-bind, Ensures-gets, Ensures-modify, Ensures-lift, Ensures-raise,
}
use fastapi_auth_service.Db.Keeps.{keeps_rules, Keeps-bind}
use fastapi_auth_service.Accounts.Google.{
  Profile, Response, GoogleApi, json_or_400, checked, get_user_profile, linked_by_email,
  create_from_profile, link_or_create, found_or_by_email, find_or_create_user, link_google_account,
  unlink_with_password, unlink_google_account,
}
use fastapi_auth_service.Accounts.Requests.Rules.{
  can_enter, KeepsLogin, AccountWrites, has_sub, body_has_sub,
}
use fastapi_auth_service.Accounts.Requests.Writes.{changes-Keeps}
use fastapi_auth_service.Accounts.Requests.Writes.Current.{IsRow, has_password-IsRow}

sub_of : (r : Result Profile) (p : Profile) → has_sub r ≡ true → r ≡ ok p → is_some p.sub ≡ true
sub_of r p k e = sym (ap has_sub e) ∙ k

has_sub-json : (r : Result Profile) → has_sub r ≡ true → has_sub (json_or_400 r) ≡ true
has_sub-json (ok p) k = k
has_sub-json (err e) k = refl

has_sub-checked :
    (r : Result (Response Profile)) → body_has_sub r ≡ true → has_sub (checked r) ≡ true
unfolding checked
has_sub-checked (err e) k = refl
has_sub-checked (ok r) k = elim (Bool-cases (r.status_code == 200)) [
  | inl b ↦ rw b (has_sub-json r.json k)
  | inr b ↦ rw b refl
]

linked_by_email-KeepsLogin : (p : Profile) → is_some p.sub ≡ true → KeepsLogin (linked_by_email p)
linked_by_email-KeepsLogin p k = record {
  id = λ u. refl;
  login = λ u h. elim (Bool-cases (truthy u.hashed_password)) [
    | inl some_hash ↦ rw some_hash refl
    | inr no_hash ↦ rw (no_hash, k) refl
  ];
}

module _ {I : Db → Type 0} ⦃w : AccountWrites I⦄ where
  create_from_profile-Keeps :
      (p : Profile) (email : Option Text)
      → is_some p.sub ≡ true
      → Keeps I (create_from_profile p email)
  unfolding create_from_profile
  create_from_profile-Keeps p none k = search keeps_rules
  create_from_profile-Keeps p (some email) k = Ensures-bind _ _ (Ensures-gets _) (λ id.
      Ensures-bind {Q = λ _ _. Unit} _ _
        (Ensures-modify _ (λ d i r. (w.adds_user _ d (rw k refl) r.1 i, tt)))
        (λ _. search keeps_rules))

  link_or_create-Keeps :
      (p : Profile) (found : Option User) → is_some p.sub ≡ true → Keeps I (link_or_create p found)
  unfolding link_or_create
  link_or_create-Keeps p none k = create_from_profile-Keeps p p.email k
  link_or_create-Keeps p (some u) k =
      Keeps-bind _ _ (changes-Keeps u.id _ (linked_by_email-KeepsLogin p k))
        (λ _. search keeps_rules)

  found_or_by_email-Keeps :
      (p : Profile) (found : Option User)
      → is_some p.sub ≡ true
      → Keeps I (found_or_by_email p found)
  unfolding found_or_by_email
  found_or_by_email-Keeps p (some u) k = search keeps_rules
  found_or_by_email-Keeps p none k = search (keeps_rules, link_or_create-Keeps) depth 10

  pub find_or_create_user-Keeps :
      (p : Profile) → is_some p.sub ≡ true → Keeps I (find_or_create_user p)
  unfolding find_or_create_user
  find_or_create_user-Keeps p k = search (keeps_rules, found_or_by_email-Keeps) depth 10

  pub link_google_account-Ensures :
      (u : User) (p : Profile)
      → Ensures I (λ d. can_enter u.id d ≡ true) (link_google_account u p) (λ _ _. Unit)
  unfolding link_google_account
  link_google_account-Ensures u p =
      Ensures-bind {Q = λ _ _. Unit} _ _ (Ensures-modify _ (λ d i r. (w.links u.id p d r i, tt)))
        (λ _. search keeps_rules)

  unlink_with_password-Ensures :
      (u : User) (b : Bool)
      → truthy u.hashed_password ≡ b
      → Ensures I (IsRow u) (unlink_with_password u b) (λ _ _. Unit)
  unfolding unlink_with_password
  unlink_with_password-Ensures u false h = Ensures-raise _
  unlink_with_password-Ensures u true h =
      Ensures-bind {Q = λ _ _. Unit} _ _
        (Ensures-modify _ (λ d i r. (w.unlinks u.id d (has_password-IsRow u d r h) i, tt)))
        (λ _. search keeps_rules)

  pub unlink_google_account-Ensures :
      (u : User) → Ensures I (IsRow u) (unlink_google_account u) (λ _ _. Unit)
  unfolding unlink_google_account
  unlink_google_account-Ensures u = unlink_with_password-Ensures u (truthy u.hashed_password) refl

module _ {I : Db → Type 0} (google : GoogleApi)
    (profile : (t : Text) → body_has_sub (google.get_userinfo t) ≡ true) where
  get_user_profile-Ensures :
      {R : Db → Type 0} (t : Text)
      → Ensures I R (lift (get_user_profile google t)) (λ p d. (is_some p.sub ≡ true) × R d)
  unfolding get_user_profile
  get_user_profile-Ensures t =
      Ensures-lift _ (λ p d i r e. (sub_of _ p (has_sub-checked _ (profile t)) e, r))

  -- What follows Google's profile may use that it has the key `sub`.
  pub profile-Ensures :
      {R : Db → Type 0} {A : Type 0} (t : Text) (f : Profile → Exec A)
      → ((p : Profile) → is_some p.sub ≡ true → Ensures I R (f p) (λ _ _. Unit))
      → Ensures I R (lift (get_user_profile google t) >>= f) (λ _ _. Unit)
  profile-Ensures t f h =
      Ensures-bind _ f (get_user_profile-Ensures t)
        (λ p. record { at = λ v s hc i r. (h p r.0).at v s hc i r.1 })
