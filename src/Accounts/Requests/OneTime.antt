-- ===== src/Accounts/Requests/OneTime.antt =====
-- The one-time tokens that are spent: verification tokens, reset tokens, and e-mail change requests.
pub mod Repeats
use fastapi_auth_service.Prelude.{
  ℕ, ◌≡◌, refl, Bool, true, false, not, ◌&&◌, ◌||◌, List, [], ◌∷◌, ◌++◌, ◌==◌, any, select,
  update_where, arith,
}
use fastapi_auth_service.Db.Schema.{Text, Db, Token, EmailChangeRequest, constraints}
use fastapi_auth_service.Db.Tables.{set_user}
use fastapi_auth_service.Accounts.Tokens.{use_token}
use fastapi_auth_service.Accounts.EmailChange.{complete}
use fastapi_auth_service.Accounts.Requests.{AccountIncoming, serve_accounts}
use fastapi_auth_service.Accounts.Requests.Rules.{AccountWrites}
use fastapi_auth_service.Accounts.Requests.Invariant.{
  AreDocumented, serve_accounts-Keeps, serve_accounts-Committed,
}

abbrev pub is_used : Text → List Token → Bool
is_used t l = any (λ r. r.token == t && r.used) l

abbrev pub is_completed : Text → List EmailChangeRequest → Bool
is_completed t l = any (λ r. r.token == t && r.completed) l

-- What is spent in `before` is spent in `d`.
pub record IsSpent (before d : Db) : Type 0 where
  pub verification :
      (t : Text)
      → (not (is_used t before.verification_tokens) || is_used t d.verification_tokens) ≡ true
  pub reset : (t : Text) → (not (is_used t before.reset_tokens) || is_used t d.reset_tokens) ≡ true
  pub change :
      (t : Text)
      → (not (is_completed t before.email_change_requests)
          || is_completed t d.email_change_requests)
        ≡ true

implies_refl : (a : Bool) → (not a || a) ≡ true
implies_refl true = refl
implies_refl false = refl

implies_trans : (a b c : Bool) → (not b || c) ≡ true → (not a || b) ≡ true → (not a || c) ≡ true
implies_trans a b c h k = ground (arith)

pub IsSpent-refl : (d : Db) → IsSpent d d
IsSpent-refl d = record {
  verification = λ t. implies_refl (is_used t d.verification_tokens);
  reset = λ t. implies_refl (is_used t d.reset_tokens);
  change = λ t. implies_refl (is_completed t d.email_change_requests);
}

used_trans :
    (t : Text) (a b c : List Token)
    → (not (is_used t b) || is_used t c) ≡ true
    → (not (is_used t a) || is_used t b) ≡ true
    → (not (is_used t a) || is_used t c) ≡ true
used_trans t a b c h k = implies_trans (is_used t a) (is_used t b) (is_used t c) h k

completed_trans :
    (t : Text) (a b c : List EmailChangeRequest)
    → (not (is_completed t b) || is_completed t c) ≡ true
    → (not (is_completed t a) || is_completed t b) ≡ true
    → (not (is_completed t a) || is_completed t c) ≡ true
completed_trans t a b c h k =
    implies_trans (is_completed t a) (is_completed t b) (is_completed t c) h k

used-append :
    (t : Text) (r : Token) (l : List Token) → (not (is_used t l) || is_used t (l ++ r ∷ [])) ≡ true
used-append t r [] = refl
used-append t r (x ∷ l) = grind (arith, used-append t r l)

used-delete :
    (t : Text) (user : ℕ) (l : List Token)
    → (not (is_used t l) || is_used t (select (λ r. not (r.user_id == user && not r.used)) l))
      ≡ true
used-delete t user [] = refl
used-delete t user (x ∷ l) = grind (arith, used-delete t user l)

used-use :
    (t u : Text) (l : List Token)
    → (not (is_used t l) || is_used t (update_where (λ r. r.token == u) use_token l)) ≡ true
used-use t u [] = refl
used-use t u (x ∷ l) = grind (arith, used-use t u l)

completed-append :
    (t : Text) (r : EmailChangeRequest) (l : List EmailChangeRequest)
    → (not (is_completed t l) || is_completed t (l ++ r ∷ [])) ≡ true
completed-append t r [] = refl
completed-append t r (x ∷ l) = grind (arith, completed-append t r l)

completed-complete :
    (t : Text) (id : ℕ) (l : List EmailChangeRequest)
    → (not (is_completed t l) || is_completed t (update_where (λ r. r.id == id) complete l)) ≡ true
completed-complete t id [] = refl
completed-complete t id (x ∷ l) = grind (arith, completed-complete t id l)

module _ {before : Db} where
  -- A write to other tables.
  elsewhere :
      (d e : Db)
      → e.verification_tokens ≡ d.verification_tokens
      → e.reset_tokens ≡ d.reset_tokens
      → e.email_change_requests ≡ d.email_change_requests
      → IsSpent before d
      → IsSpent before e
  elsewhere d e v r c h = record {
    verification = λ t. rw v (h.verification t);
    reset = λ t. rw r (h.reset t);
    change = λ t. rw c (h.change t);
  }

  verification-IsSpent :
      (d : Db) (l : List Token)
      → ((t : Text) → (not (is_used t d.verification_tokens) || is_used t l) ≡ true)
      → IsSpent before d
      → IsSpent before (record d { verification_tokens = l })
  verification-IsSpent d l k h = record {
    verification = λ t.
        used_trans t before.verification_tokens d.verification_tokens l (k t) (h.verification t);
    reset = h.reset;
    change = h.change;
  }

instance spent_writes : {before : Db} → AccountWrites (IsSpent before)
unfolding set_user
spent_writes {before = before} = record {
  adds_user = λ u d login fresh h. elsewhere d _ refl refl refl h;
  changes_user = λ id f d k h. elsewhere d _ refl refl refl h;
  links = λ id p d e h. elsewhere d _ refl refl refl h;
  unlinks = λ id d p h. elsewhere d _ refl refl refl h;
  deletes_user = λ id d h. elsewhere d _ refl refl refl h;
  adds_token = λ r d h. verification-IsSpent d _ (λ t. used-append t r d.verification_tokens) h;
  deletes_tokens =
      λ user d h. verification-IsSpent d _ (λ t. used-delete t user d.verification_tokens) h;
  uses_token = λ u d h. verification-IsSpent d _ (λ t. used-use t u d.verification_tokens) h;
  uses_reset_token = λ u d h. record {
    verification = h.verification;
    reset = λ t.
        used_trans t before.reset_tokens d.reset_tokens _ (used-use t u d.reset_tokens) (h.reset t);
    change = h.change;
  };
  adds_request = λ r d h. record {
    verification = h.verification;
    reset = h.reset;
    change = λ t.
        completed_trans t before.email_change_requests d.email_change_requests _
          (completed-append t r d.email_change_requests) (h.change t);
  };
  completes = λ id d h. record {
    verification = h.verification;
    reset = h.reset;
    change = λ t.
        completed_trans t before.email_change_requests d.email_change_requests _
          (completed-complete t id d.email_change_requests) (h.change t);
  };
}

module _ (rs : List AccountIncoming) (d : Db) (k : AreDocumented rs) where
  -- A verification token or reset token that is used and an e-mail change request that is
  -- completed are so after any account requests, whichever calls of the database fail, where
  -- bcrypt returns no empty hash and the profiles of Google have a sub.
  pub serve_accounts-IsSpent : IsSpent d (serve_accounts rs d)
  serve_accounts-IsSpent = serve_accounts-Keeps (IsSpent d) rs d k (IsSpent-refl d)

  -- If the unique and not-null constraints are met, they are after any sequence of account
  -- requests, whichever calls of the database fail, where bcrypt returns no empty hash and the
  -- profiles of Google have a sub.
  pub serve_accounts-constraints : constraints d ≡ true → constraints (serve_accounts rs d) ≡ true
  serve_accounts-constraints h =
      (serve_accounts-Committed (IsSpent d) true rs d k (IsSpent-refl d, h)).1
