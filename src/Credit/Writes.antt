-- ===== src/Credit/Writes.antt =====
-- The writes of the credit service (app/services/credit), as conditions on a database invariant; the
-- modules below use them.
pub mod Balances
pub mod Purchases
pub mod Verified
pub mod Subscriptions
use fastapi_auth_service.Prelude.{ℕ, ◌≡◌, Bool, true, false, Option}
use fastapi_auth_service.Prelude.Int.{ℤ}
use fastapi_auth_service.Db.Schema.{
  Text, DateTime, Db, Subscription, TransactionType, Description, UserCredit, CreditTransaction,
}
use fastapi_auth_service.Db.Tables.{
  set_subscription, add_subscription, add_credit, add_transaction, set_credit,
}
use fastapi_auth_service.Db.Ensures.{Keeps}
use fastapi_auth_service.Credit.Account.{add_credits, get_user_credit, use_credits}

-- The transaction types that `add_credits` is called with.
abbrev pub IsPurchase : TransactionType → Type 0
IsPurchase TransactionType.credit_used = ⊥
IsPurchase TransactionType.trial_credit_grant = ⊥
IsPurchase _ = Unit

pub record CreditWrites (I : Db → Type 0) : Type 0 where
  pub subscription :
      (id : ℕ) (f : Subscription → Subscription) (d : Db) → I d → I (set_subscription id f d)
  pub new_subscription : (s : Subscription) (d : Db) → I d → I (add_subscription s d)
  pub adds :
      (test : Text → Bool) (now : DateTime) (u : ℕ) (amount : ℤ) (reference_id : Option Text)
      (description : Option Description) (transaction_type : TransactionType)
      (plan_id subscription_id : Option ℕ) (money : Option ℤ)
      → IsPurchase transaction_type
      → Keeps I (
          add_credits test now u amount reference_id description transaction_type plan_id
            subscription_id money)

-- The operations on a balance, which the writes of `CreditWrites` do not cover.
pub record BalanceWrites (I : Db → Type 0) : Type 0 where
  pub gets_credit : (now : DateTime) (user : ℕ) → Keeps I (get_user_credit now user)
  pub uses :
      (test : Text → Bool) (now : DateTime) (user : ℕ) (amount : ℤ) (reference : Option Text)
      (description : Option Description) (money : Option ℤ)
      → Keeps I (use_credits test now user amount reference description money)

abbrev pub is_grant : TransactionType → Bool
is_grant TransactionType.trial_credit_grant = true
is_grant _ = false

-- What an invariant that does not depend on the amounts has to be kept by, for both of the above.
pub record EntryWrites (I : Db → Type 0) : Type 0 where
  pub credit : (c : UserCredit) (d : Db) → I d → I (add_credit c d)
  pub entry :
      (t : CreditTransaction) (u : ℕ) (f : UserCredit → UserCredit) (d : Db)
      → is_grant t.transaction_type ≡ false
      → I d
      → I (add_transaction t (set_credit u f d))
