-- ===== src/Credit/Solvency.antt =====
-- The sign of the balances, under `use_credits` (app/services/credit/base.py).
use fastapi_auth_service.Prelude.{
  ℕ, ◌≡◌, refl, sym, ◌∙◌, Bool, true, false, Option, none, some, List, [], ◌∷◌, ◌++◌, ◌==◌, select,
  all, update_where, arith,
}
use fastapi_auth_service.Prelude.Int.{ℤ, pos, ltb_ℤ, leb_ℤ, int_laws}
use fastapi_auth_service.Db.Schema.{Text, DateTime, Db, UserCredit, CreditTransaction, Description}
use fastapi_auth_service.Db.Session.{
  insufficient_credits, query, gets, modify, commit, refresh, scalar_one_or_none,
}
use fastapi_auth_service.Db.Ensures.{
  Ensures, Keeps, Anything, Ensures-bind, Ensures-query, Ensures-gets, Ensures-modify, Ensures-pure,
  Ensures-commit, Ensures-refresh, Ensures-scalar, Ensures-if, Ensures-raise, Ensures-lift,
}
use fastapi_auth_service.Credit.Account.{
  or_create, get_user_credit, take_balance, post_and_respond, take_from_credit, use_credits,
  create_credit,
}
use fastapi_auth_service.Credit.Ledger.Entries.{select-append_new, update_where-none}
use fastapi_auth_service.Credit.Ledger.Service.{db_error_handler-Ensures}

-- No user owes credits.
abbrev pub IsSolvent : Db → Type 0
IsSolvent d = all (λ c. leb_ℤ (pos 0) c.balance) d.credits ≡ true

all-append :
    (cs : List UserCredit) (c : UserCredit)
    → all (λ c. leb_ℤ (pos 0) c.balance) cs ≡ true
    → leb_ℤ (pos 0) c.balance ≡ true
    → all (λ c. leb_ℤ (pos 0) c.balance) (cs ++ c ∷ []) ≡ true
all-append [] c h e = ground arith
all-append (s ∷ cs) c h e = ground (arith, all-append cs c)

take-positive :
    (now : DateTime) (amount : ℤ) (c : UserCredit)
    → ltb_ℤ c.balance amount ≡ false
    → leb_ℤ (pos 0) (take_balance now amount c).balance ≡ true
take-positive now amount c h = grind int_laws

all-take :
    (now : DateTime) (u : ℕ) (amount : ℤ) (cs : List UserCredit) (c : UserCredit)
    → all (λ c. leb_ℤ (pos 0) c.balance) cs ≡ true
    → select (λ r. r.user_id == u) cs ≡ c ∷ []
    → ltb_ℤ c.balance amount ≡ false
    → all
        (λ c. leb_ℤ (pos 0) c.balance)
        (update_where (λ r. r.user_id == u) (take_balance now amount) cs)
      ≡ true
all-take now u amount [] c h only e = absurd (cc only)
all-take now u amount (s ∷ cs) c h only e = grind (
  arith,
  take-positive now amount s,
  update_where-none u (take_balance now amount) cs,
  all-take now u amount cs c,
)

-- What the look-up of a credit row has found.
abbrev FoundRows : ℕ → Option UserCredit → Db → Type 0
FoundRows u none d = select (λ c. c.user_id == u) d.credits ≡ []
FoundRows u (some c) d = select (λ c. c.user_id == u) d.credits ≡ c ∷ []

or_create-Ensures :
    (now : DateTime) (u : ℕ) (found : Option UserCredit)
    → Ensures IsSolvent (FoundRows u found) (or_create now u found) (λ c d. FoundRows u (some c) d)
unfolding or_create create_credit
or_create-Ensures now u (some c) = Ensures-pure c (λ d h r. r)
or_create-Ensures now u none = Ensures-bind (gets _) _ (Ensures-gets _) λ id.
    Ensures-bind (modify _) _
      (Ensures-modify
        {Q = FoundRows u
          (some (record { id = id; user_id = u; balance = pos 0; updated_at = now }))}
        _ (λ d h r. (all-append d.credits _ h refl, select-append_new u d.credits _ r.0 refl)))
      λ _.
        Ensures-bind commit _ Ensures-commit
          λ _. Ensures-bind refresh _ Ensures-refresh λ _. Ensures-pure _ (λ d h r. r)

get_user_credit-Ensures :
    (now : DateTime) (u : ℕ)
    → Ensures IsSolvent Anything (get_user_credit now u) (λ c d. FoundRows u (some c) d)
unfolding get_user_credit
get_user_credit-Ensures now u = Ensures-bind (query _) _ (Ensures-query _) λ rows.
    Ensures-bind (scalar_one_or_none rows) _
      (Ensures-scalar {Q = λ o d. FoundRows u o d} rows (λ d h r e. sym r.1 ∙ e)
        (λ c d h r e. sym r.1 ∙ e))
      (or_create-Ensures now u)

module _ (test : Text → Bool) (now : DateTime) (u : ℕ) (amount : ℤ) where
  take-Ensures :
      (c : UserCredit) (entry : ℕ → CreditTransaction) (new_balance : ℤ) (money : Option ℤ)
      → ltb_ℤ c.balance amount ≡ false
      → Ensures IsSolvent
          (FoundRows u (some c))
          (post_and_respond test now (take_balance now amount) entry u new_balance money)
          (λ _ _. Unit)
  unfolding post_and_respond
  take-Ensures c entry new_balance money enough = Ensures-bind (gets _) _ (Ensures-gets _) λ id.
      Ensures-bind (modify _) _
        (Ensures-modify {Q = λ _. Unit} _
          (λ d h r. (all-take now u amount d.credits c h r.0 enough, tt)))
        λ _.
          Ensures-bind commit _ Ensures-commit
            λ _. Ensures-bind refresh _ Ensures-refresh λ _. Ensures-lift _ (λ a d h r e. tt)

  -- Whatever the amount, and whichever calls of the database fail: with no negative balance in the
  -- session and none committed, `use_credits` leaves none, whether it returns or raises.
  pub use_credits-IsSolvent :
      (reference_id : Option Text) (description : Option Description) (money : Option ℤ)
      → Keeps IsSolvent (use_credits test now u amount reference_id description money)
  unfolding use_credits take_from_credit
  use_credits-IsSolvent reference_id description money = db_error_handler-Ensures _ (
      Ensures-bind _ _ (get_user_credit-Ensures now u) (λ c.
        Ensures-if (ltb_ℤ c.balance amount) _ _ (λ _. Ensures-raise insufficient_credits)
          (λ enough. take-Ensures c _ _ money enough)))
