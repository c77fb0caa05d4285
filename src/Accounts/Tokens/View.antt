-- ===== src/Accounts/Tokens/View.antt =====
-- `create_verification_token` and `verify_email` (app/services/user_service.py) against the table of
-- verification tokens.
use mathlib.Core.Path.{fun_ext}
use fastapi_auth_service.Prelude.{
  ℕ, ◌+◌, ◌≡◌, refl, ap, ◌∙◌, true, false, none, some, List, [], ◌∷◌, ◌++◌, ◌==◌, update_where-map,
  ltb, map, select, any, if◌then◌else◌, arith, Bool-cases, inl, inr,
}
use fastapi_auth_service.Db.Schema.{Text, Db, User, Token, constraints}
use fastapi_auth_service.Db.Tables.{set_user}
use fastapi_auth_service.Db.Session.{ok, fresh, after, ◌>>=◌}
use fastapi_auth_service.Accounts.{rollback_and_500}
use fastapi_auth_service.Accounts.Tokens.{
  hours, is_live_token, delete_unused_tokens, add_verification_token, mark_verified,
  use_verification_token, issue_token, create_verification_token, verify_user, verify_found,
  verify_email,
}
use fastapi_auth_service.Accounts.Tokens.Table.{
  view, issue, redeem, tokens, no_token-delete, live-append, live-delete, live-use, unique-tokens,
  constraints-issue, constraints-redeem,
}

-- The row that a verification token becomes.
abbrev pub token_row : ℕ → Text → ℕ → Token
token_row now token user = record {
  token = token;
  user_id = user;
  expires_at = now + hours 24;
  used = false;
}

module _ (now : ℕ) (token : Text) (user : ℕ) (u : User) (d : Db)
    (found : select (λ r. r.id == user) d.users ≡ u ∷ [])
    (new : any (λ j. j == token) (tokens d.verification_tokens) ≡ false)
    (valid : constraints d ≡ true) where
  create_verification_token-fresh : create_verification_token now token user (fresh d) ≡ (
    ok token,
    fresh (add_verification_token (token_row now token user) (delete_unused_tokens user d)),
  )
  unfolding create_verification_token issue_token rollback_and_500 ◌>>=◌
  create_verification_token-fresh =
      rw (found, constraints-issue (token_row now token user) user d new valid) refl

  -- For a user who is in the database once and a token that no row has, with the constraints met
  -- and the calls of the database succeeding: create_verification_token puts the token with its
  -- owner and an expiry of 24 hours into the table of redeemable tokens in place of all others of
  -- that user, and leaves those of other users.
  pub create_verification_token-issue :
      view (after (create_verification_token now token user) d)
      ≡ issue token user (now + hours 24) (view d)
  create_verification_token-issue =
      ap (λ r. view r.1.committed) create_verification_token-fresh
      ∙ fun_ext (λ t.
        live-append t (token_row now token user) _ refl
          (no_token-delete token user d.verification_tokens new)
        ∙ ap (λ o. if t == token then some (user, now + hours 24) else o)
            (live-delete t user d.verification_tokens (unique-tokens d valid)))

live-token :
    (t : Text) (r : Token) (m l : List Token) → select (is_live_token t) l ≡ r ∷ m → r.token ≡ t
live-token t r m [] e = absurd (cc e)
live-token t r m (x ∷ l) e = grind (arith, live-token t r m l)

select-append :
    (r : Token) (l : List Token)
    → r.used ≡ false
    → any (λ j. j == r.token) (tokens l) ≡ false
    → select (is_live_token r.token) (l ++ r ∷ []) ≡ r ∷ []
select-append r [] u h = grind arith
select-append r (x ∷ l) u h = grind (arith, select-append r l)

-- The users, the one with the key with a verified address.
abbrev pub with_verified : ℕ → List User → List User
with_verified key users =
    map (λ x. if x.id == key then record x { is_verified = true } else x) users

-- The token's row, if it may be redeemed, and its owner.
module _ (now : ℕ) (token : Text) (r : Token) (u : User) (d : Db)
    (found : select (is_live_token token) d.verification_tokens ≡ r ∷ [])
    (owner : select (λ x. x.id == r.user_id) d.users ≡ u ∷ []) (valid : constraints d ≡ true) where
  verify_email-fresh : verify_email now token (fresh d) ≡ (
      if ltb r.expires_at now then (ok (false, none), fresh d) else (
        ok (true, some (mark_verified u)),
        fresh (use_verification_token token (set_user u.id mark_verified d)),
      ))
  unfolding verify_email verify_found verify_user rollback_and_500 ◌>>=◌
  verify_email-fresh = elim (Bool-cases (ltb r.expires_at now)) [
    | inl late ↦ rw (found, late) refl
    | inr early ↦
        rw
          (
            found,
            early,
            owner,
            constraints-redeem u.id r.token d,
            valid,
            live-token token r [] d.verification_tokens found,
          )
          refl
  ]

  -- Of a token whose row may be redeemed and has one owner, with the constraints met and the calls
  -- of the database succeeding: until its expiry, verify_email returns true and the owner with
  -- is_verified set, sets is_verified of that user and no other column of the users, and takes
  -- exactly that token from the table of redeemable tokens; past the expiry it returns false and
  -- leaves the users and that table.
  pub verify_email-redeem :
      ((verify_email now token (fresh d)).0
        ≡ ok (
            if ltb r.expires_at now
            then (false, none)
            else (true, some (record u { is_verified = true }))))
      × ((after (verify_email now token) d).users
          ≡ (if ltb r.expires_at now then d.users else with_verified u.id d.users))
      × (view (after (verify_email now token) d)
          ≡ (if ltb r.expires_at now then view d else redeem token (view d)))
  unfolding set_user verify_email ◌>>=◌
  verify_email-redeem = elim (Bool-cases (ltb r.expires_at now)) [
    | inl late ↦ rw (verify_email-fresh, late) (refl, refl, refl)
    | inr early ↦
        rw (verify_email-fresh, early)
          (
            refl,
            update_where-map (λ x. x.id == u.id) mark_verified d.users,
            fun_ext (λ t. live-use t token d.verification_tokens),
          )
  ]

module _ (now later : ℕ) (token : Text) (user : ℕ) (u : User) (d : Db)
    (found : select (λ r. r.id == user) d.users ≡ u ∷ [])
    (new : any (λ j. j == token) (tokens d.verification_tokens) ≡ false)
    (valid : constraints d ≡ true) where
  -- A token that was just created for a user is answered with true and the user with is_verified
  -- set, and sets is_verified of that user and no other column of the users, until 24 hours have
  -- passed; from then on it is answered with false and the users stay, where the user is in the
  -- database once, no row has the token, the constraints are met and the calls of the database
  -- succeed.
  pub verify_email-create_verification_token :
      ((verify_email later token (fresh (after (create_verification_token now token user) d))).0
        ≡ ok (
            if ltb (now + hours 24) later
            then (false, none)
            else (true, some (record u { is_verified = true }))))
      × ((after
            (verify_email later token)
            (after (create_verification_token now token user) d)).users
          ≡ (if ltb (now + hours 24) later then d.users else with_verified u.id d.users))
  verify_email-create_verification_token =
      let issued : Db =
        add_verification_token (token_row now token user) (delete_unused_tokens user d) in
      let created : after (create_verification_token now token user) d ≡ issued =
        ap (λ x. x.1.committed)
          (create_verification_token-fresh now token user u d found new valid) in
      let redeemed =
        verify_email-redeem later token (token_row now token user) u issued
          (select-append (token_row now token user) _ refl
            (no_token-delete token user d.verification_tokens new))
          found (constraints-issue (token_row now token user) user d new valid) in
      (
        ap (λ e. (verify_email later token (fresh e)).0) created ∙ redeemed.0,
        ap (λ e. (after (verify_email later token) e).users) created ∙ redeemed.1,
      )
