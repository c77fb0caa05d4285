-- ===== src/Accounts/Requests/OneTime/Repeats.antt =====
-- The routes that redeem a token, for a token that is spent.
use fastapi_auth_service.Prelude.{
  ◌≡◌, refl, sym, ap, ◌∙◌, Bool, true, false, not, ◌||◌, ◌==◌, Option, none, List, [], ◌∷◌, any,
  select, map, unique, arith,
}
use fastapi_auth_service.Db.Schema.{Text, Db, Token, EmailChangeRequest, constraints}
use fastapi_auth_service.Db.Session.{Exn, Exec, query, scalar_one_or_none, ◌>>=◌}
use fastapi_auth_service.Db.Ensures.{
  Ensures, Keeps, Anything, Ensures-bind, Ensures-query, Ensures-scalar, Ensures-raise,
}
use fastapi_auth_service.Db.Keeps.{keeps_rules, Keeps-try, Keeps-raise, Keeps-bind, Keeps-pure}
use fastapi_auth_service.Requests.Repeats.{Ensures-unreachable}
use fastapi_auth_service.Requests.Invariant.{kept, done}
use fastapi_auth_service.Accounts.Tokens.{is_live_token, redeem_reset_token, verify_reset_token}
use fastapi_auth_service.Accounts.EmailChange.{is_open_request, change_found, verify_email_change}
use fastapi_auth_service.Accounts.Routes.{Context}
use fastapi_auth_service.Accounts.Routes.Emails.{
  verify_live, verify_email_route, verify_email_change_route,
}
use fastapi_auth_service.Accounts.Routes.Passwords.{reset_password_with_token}
use fastapi_auth_service.Accounts.Requests.{
  AccountIncoming, verify, reset, verify_address, run_account, account_session, serve_account,
  serve_accounts,
}
use fastapi_auth_service.Accounts.Requests.Invariant.{AreDocumented}
use fastapi_auth_service.Accounts.Requests.Writes.Readers.{
  http_or-Keeps, reset_error-Keeps, confirm_change-Keeps,
}
use fastapi_auth_service.Accounts.Requests.OneTime.{
  is_used, is_completed, serve_accounts-IsSpent, serve_accounts-constraints,
}

abbrev pub Leaves : {A : Type 0} → Db → Exec A → Type 0
Leaves d₀ m = Keeps (λ d. d ≡ d₀) m

any-token :
    (t : Text) (l : List Token)
    → is_used t l ≡ true
    → any (λ j. j == t) (map (λ r. r.token) l) ≡ true
any-token t [] h = h
any-token t (r ∷ l) h = grind (arith, any-token t l)

no-token :
    (t : Text) (l : List Token)
    → any (λ j. j == t) (map (λ r. r.token) l) ≡ false
    → select (is_live_token t) l ≡ []
no-token t [] h = refl
no-token t (r ∷ l) h = grind (arith, no-token t l)

live-used :
    (t : Text) (l : List Token)
    → unique (map (λ r. r.token) l) ≡ true
    → is_used t l ≡ true
    → select (is_live_token t) l ≡ []
live-used t [] u h = refl
live-used t (r ∷ l) u h = grind (arith, live-used t l, any-token t l, no-token t l)

unique-tokens :
    (d : Db) → constraints d ≡ true → unique (map (λ t. t.token) d.verification_tokens) ≡ true
unfolding constraints
unique-tokens d h = grind arith

unique_reset_tokens :
    (d : Db) → constraints d ≡ true → unique (map (λ t. t.token) d.reset_tokens) ≡ true
unfolding constraints
unique_reset_tokens d h = grind arith

unique_change_tokens :
    (d : Db) → constraints d ≡ true → unique (map (λ r. r.token) d.email_change_requests) ≡ true
unfolding constraints
unique_change_tokens d h = grind arith

-- What a query finds and `f` does with it, where it finds nothing in `d₀`.
module _ {d₀ : Db} {A B : Type 0} where
  nothing-Ensures :
      {Q : B → Db → Type 0} (rows : Db → List A) (f : Option A → Exec B)
      → rows d₀ ≡ []
      → Ensures (λ d. d ≡ d₀) Anything (f none) Q
      → Ensures (λ d. d ≡ d₀) Anything (query rows >>= λ l. scalar_one_or_none l >>= f) Q
  nothing-Ensures rows f empty h = Ensures-bind _ _ (Ensures-query rows) (λ l.
      Ensures-bind {Q = λ o d. o ≡ none} _ f
        (Ensures-scalar l (λ d i r e. refl)
          (λ a d i r e. absurd (cc (sym (ap rows i ∙ empty) ∙ sym r.1 ∙ e))))
        (λ o. record { at = λ v s hc i r. rw r (h.at v s hc i tt) }))

completed_request :
    (t : Text) (l : List EmailChangeRequest)
    → is_completed t l ≡ true
    → any (λ j. j == t) (map (λ r. r.token) l) ≡ true
completed_request t [] h = h
completed_request t (r ∷ l) h = grind (arith, completed_request t l)

no_request :
    (t : Text) (l : List EmailChangeRequest)
    → any (λ j. j == t) (map (λ r. r.token) l) ≡ false
    → select (is_open_request t) l ≡ []
no_request t [] h = refl
no_request t (r ∷ l) h = grind (arith, no_request t l)

open-completed :
    (t : Text) (l : List EmailChangeRequest)
    → unique (map (λ r. r.token) l) ≡ true
    → is_completed t l ≡ true
    → select (is_open_request t) l ≡ []
open-completed t [] u h = refl
open-completed t (r ∷ l) u h =
    grind (arith, open-completed t l, completed_request t l, no_request t l)

module _ (x : Context) (t : Text) (d : Db) (valid : constraints d ≡ true) where
  verify_email_route-Leaves :
      is_used t d.verification_tokens ≡ true → Leaves d (verify_email_route x t)
  unfolding verify_email_route verify_live
  verify_email_route-Leaves used =
      Keeps-try _ _
        (nothing-Ensures (λ e. select (is_live_token t) e.verification_tokens) (verify_live x)
          (live-used t d.verification_tokens (unique-tokens d valid) used) (Keeps-raise _))
        (http_or-Keeps 400)

  reset_password_with_token-Leaves :
      (new : Text) → is_used t d.reset_tokens ≡ true → Leaves d (reset_password_with_token x t new)
  unfolding reset_password_with_token verify_reset_token redeem_reset_token
  reset_password_with_token-Leaves new used =
      Keeps-try _ _
        (Ensures-bind {Q = λ _ _. ⊥} _ _
          (nothing-Ensures (λ e. select (is_live_token t) e.reset_tokens) (redeem_reset_token x.now)
            (live-used t d.reset_tokens (unique_reset_tokens d valid) used) (Ensures-raise _))
          (λ user. Ensures-unreachable _))
        reset_error-Keeps

  verify_email_change_route-Leaves :
      is_completed t d.email_change_requests ≡ true → Leaves d (verify_email_change_route x t)
  unfolding verify_email_change_route verify_email_change change_found
  verify_email_change_route-Leaves completed =
      Keeps-try _ _
        (Keeps-bind _ _
          (Keeps-try _ _
            (nothing-Ensures (λ e. select (is_open_request t) e.email_change_requests)
              (change_found x.now)
              (open-completed t d.email_change_requests (unique_change_tokens d valid) completed)
              (Keeps-pure _))
            (λ e. search keeps_rules))
          (λ answer. search (keeps_rules, confirm_change-Keeps) depth 8))
        (http_or-Keeps 400)

spent_in : (a b : Bool) → (not a || b) ≡ true → a ≡ true → b ≡ true
spent_in a b h k = ground arith

serve-Leaves :
    (r : AccountIncoming) (d : Db)
    → Leaves d (run_account r.context r.request)
    → serve_account r d ≡ d
unfolding serve_account
serve-Leaves r d h =
    kept (λ b. b ≡ d) (run_account r.context r.request) (account_session r d) h refl refl

module _ (t : Text) (rs : List AccountIncoming) (d : Db) (k : AreDocumented rs)
    (valid : constraints d ≡ true) (x : Context) (faults : List (Option Exn)) where
  -- A verification token that is used leaves the database as it is when the route verify-email
  -- gets it again, after any account requests, whichever calls of the database fail, where the
  -- constraints are met at the start, bcrypt returns no empty hash and the profiles of Google have
  -- a sub.
  pub serve_account-verify :
      is_used t d.verification_tokens ≡ true
      → serve_account
          (record { context = x; faults = faults; request = verify t })
          (serve_accounts rs d)
        ≡ serve_accounts rs d
  unfolding run_account
  serve_account-verify used = serve-Leaves _ (serve_accounts rs d) (
      done _ (
        verify_email_route-Leaves x t _ (serve_accounts-constraints rs d k valid)
          (spent_in _ _ ((serve_accounts-IsSpent rs d k).verification t) used)))

  -- A reset token that is used leaves the database as it is when the route password-reset gets it
  -- again, after any account requests, whichever calls of the database fail, where the constraints
  -- are met at the start, bcrypt returns no empty hash and the profiles of Google have a sub.
  pub serve_account-reset :
      (new : Text)
      → is_used t d.reset_tokens ≡ true
      → serve_account
          (record { context = x; faults = faults; request = reset t new })
          (serve_accounts rs d)
        ≡ serve_accounts rs d
  unfolding run_account
  serve_account-reset new used = serve-Leaves _ (serve_accounts rs d) (
      reset_password_with_token-Leaves x t _ (serve_accounts-constraints rs d k valid) new
        (spent_in _ _ ((serve_accounts-IsSpent rs d k).reset t) used))

  -- An e-mail change request that is completed leaves the database as it is when the route verify-
  -- email-change gets its token again, after any account requests, whichever calls of the database
  -- fail, where the constraints are met at the start, bcrypt returns no empty hash and the
  -- profiles of Google have a sub.
  pub serve_account-verify_address :
      is_completed t d.email_change_requests ≡ true
      → serve_account
          (record { context = x; faults = faults; request = verify_address t })
          (serve_accounts rs d)
        ≡ serve_accounts rs d
  unfolding run_account
  serve_account-verify_address completed = serve-Leaves _ (serve_accounts rs d) (
      done _ (
        verify_email_change_route-Leaves x t _ (serve_accounts-constraints rs d k valid)
          (spent_in _ _ ((serve_accounts-IsSpent rs d k).change t) completed)))
