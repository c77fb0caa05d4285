-- ===== src/Credit/Ledger/Service.antt =====
-- The methods of `BaseCreditService` (app/services/credit/base.py) and the ledger.
use fastapi_auth_service.Prelude.{
  ℕ, ◌≡◌, refl, sym, ◌∙◌, Bool, Option, none, some, [], ◌==◌, select,
}
use fastapi_auth_service.Prelude.Int.{ℤ, pos, ◌-ℤ◌, ltb_ℤ, int_laws}
use fastapi_auth_service.Db.Schema.{
  Text, DateTime, Db, UserCredit, CreditTransaction, TransactionType, Description,
}
use fastapi_auth_service.Db.Session.{
  Exn, http, insufficient_credits, Exec, query, gets, modify, commit, rollback, refresh,
  scalar_one_or_none,
}
use fastapi_auth_service.Db.Ensures.{
  Ensures, Keeps, Anything, Ensures-pure, Ensures-raise, Ensures-bind, Ensures-try, Ensures-gets,
  Ensures-modify, Ensures-rollback, Ensures-query, Ensures-refresh, Ensures-commit, Ensures-scalar,
  Ensures-if, Ensures-lift,
}
use fastapi_auth_service.Credit.Account.{
  rollback_and_raise, db_error_handler, post_and_respond, add_to_credit, take_from_credit,
  or_create, get_user_credit, change_balance, take_balance, add_credits, use_credits,
}
use fastapi_auth_service.Credit.Ledger.{IsBalanced, signed_amount, signed_as}
use fastapi_auth_service.Credit.Ledger.Entries.{
  Adjusts, HasRow, entry-IsBalanced, add_credit-IsBalanced, add_credit-HasRow,
}

change_balance-Adjusts : (now : DateTime) (x : ℤ) → Adjusts x (change_balance now x)
change_balance-Adjusts now x = record { balance = λ c. refl; owner = λ c. refl }

take_balance-Adjusts : (now : DateTime) (x : ℤ) → Adjusts (pos 0 -ℤ x) (take_balance now x)
take_balance-Adjusts now x = record { balance = λ c. omega int_laws; owner = λ c. refl }

rollback_and_raise-Keeps :
    {A : Type 0} {Q : A → Db → Type 0} (I : Db → Type 0) (e : Exn)
    → Ensures I Anything (rollback_and_raise {A = A} e) Q
unfolding rollback_and_raise
rollback_and_raise-Keeps I (http status) = Ensures-raise (http status)
rollback_and_raise-Keeps I _ =
    Ensures-bind rollback _ Ensures-rollback (λ _. Ensures-raise (http 500))

-- The error handler keeps every invariant that the handled code keeps.
pub db_error_handler-Ensures :
    {A : Type 0} {I R : Db → Type 0} {Q : A → Db → Type 0} (m : Exec A)
    → Ensures I R m Q
    → Ensures I R (db_error_handler m) Q
unfolding db_error_handler
db_error_handler-Ensures {I} m h = Ensures-try m rollback_and_raise h (rollback_and_raise-Keeps I)

-- What the look-up of a credit row has found.
abbrev pub FoundCredit : ℕ → Option UserCredit → Db → Type 0
FoundCredit u none d = select (λ c. c.user_id == u) d.credits ≡ []
FoundCredit u (some c) d = HasRow u d

or_create-Ensures :
    (now : DateTime) (u : ℕ) (found : Option UserCredit)
    → Ensures IsBalanced (FoundCredit u found) (or_create now u found) (λ c d. HasRow u d)
unfolding or_create
or_create-Ensures now u (some c) = Ensures-pure c (λ d h r. r)
or_create-Ensures now u none = Ensures-bind (gets _) _ (Ensures-gets _) λ id.
    Ensures-bind (modify _) _
      (Ensures-modify {Q = HasRow u} _
        (λ d h r. (add_credit-IsBalanced _ d refl r.0 h, add_credit-HasRow u _ d refl r.0)))
      λ _.
        Ensures-bind commit _ Ensures-commit
          λ _. Ensures-bind refresh _ Ensures-refresh λ _. Ensures-pure _ (λ d h r. r)

-- The user has exactly one credit row afterwards, and the ledger is kept.
pub get_user_credit-Ensures :
    (now : DateTime) (u : ℕ)
    → Ensures IsBalanced Anything (get_user_credit now u) (λ c d. HasRow u d)
unfolding get_user_credit
get_user_credit-Ensures now u = Ensures-bind (query _) _ (Ensures-query _) λ rows.
    Ensures-bind (scalar_one_or_none rows) _
      (Ensures-scalar {Q = λ o d. FoundCredit u o d} rows (λ d h r e. sym r.1 ∙ e)
        (λ c d h r e. record { row = c; only = sym r.1 ∙ e }))
      (or_create-Ensures now u)

module _ (test : Text → Bool) (now : DateTime) (u : ℕ) where
  post_and_respond-Ensures :
      {x : ℤ} {f : UserCredit → UserCredit} (entry : ℕ → CreditTransaction) (new_balance : ℤ)
      (money : Option ℤ)
      → Adjusts x f
      → ((id : ℕ) → (entry id).user_id ≡ u)
      → ((id : ℕ) → signed_amount (entry id) ≡ x)
      → Ensures IsBalanced
          (HasRow u)
          (post_and_respond test now f entry u new_balance money)
          (λ _ _. Unit)
  unfolding post_and_respond
  post_and_respond-Ensures {f} entry new_balance money adjusts mine moved =
      Ensures-bind (gets _) _ (Ensures-gets _) λ id.
        Ensures-bind (modify _) _
          (Ensures-modify {Q = λ _. Unit} _
            (λ d h r. (entry-IsBalanced u (entry id) d adjusts r.0 (mine id) (moved id) h, tt)))
          λ _.
            Ensures-bind commit _ Ensures-commit
              λ _. Ensures-bind refresh _ Ensures-refresh λ _. Ensures-lift _ (λ a d h r e. tt)

  -- Adding credits keeps the ledger, whatever fails on the way.
  pub add_credits-Keeps :
      (amount : ℤ) (reference_id : Option Text) (description : Option Description)
      (transaction_type : TransactionType) (plan_id subscription_id : Option ℕ) (money : Option ℤ)
      → ((x : ℤ) → signed_as transaction_type x ≡ x)
      → Keeps IsBalanced (
          add_credits test now u amount reference_id description transaction_type plan_id
            subscription_id money)
  unfolding add_credits add_to_credit
  add_credits-Keeps amount reference_id description transaction_type plan_id subscription_id money
        adds =
      db_error_handler-Ensures _ (
        Ensures-bind (get_user_credit now u) _ (get_user_credit-Ensures now u) (λ credit.
          post_and_respond-Ensures _ _ money (change_balance-Adjusts now amount) (λ _. refl)
            (λ _. adds amount)))

  -- Using credits keeps the ledger, whatever fails on the way.
  pub use_credits-Keeps :
      (amount : ℤ) (reference_id : Option Text) (description : Option Description)
      (money : Option ℤ)
      → Keeps IsBalanced (use_credits test now u amount reference_id description money)
  unfolding use_credits take_from_credit
  use_credits-Keeps amount reference_id description money = db_error_handler-Ensures _ (
      Ensures-bind (get_user_credit now u) _ (get_user_credit-Ensures now u) (λ credit.
        Ensures-if (ltb_ℤ credit.balance amount) _ _ (λ _. Ensures-raise insufficient_credits)
          (λ _.
            post_and_respond-Ensures _ _ money (take_balance-Adjusts now amount) (λ _. refl)
              (λ _. refl))))
