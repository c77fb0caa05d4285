-- ===== src/Credit/Writes/Balances.antt =====
-- The operations on balances (app/services/credit/base.py), for invariants that do not depend on the
-- amounts.
use fastapi_auth_service.Prelude.{ℕ, ◌≡◌, refl, Bool, false, Option, none, some}
use fastapi_auth_service.Prelude.Int.{ℤ, ltb_ℤ}
use fastapi_auth_service.Db.Schema.{
  Text, DateTime, Db, UserCredit, CreditTransaction, TransactionType, Description,
}
use fastapi_auth_service.Db.Tables.{add_credit, add_transaction, set_credit}
use fastapi_auth_service.Db.Session.{insufficient_credits, modify}
use fastapi_auth_service.Db.Ensures.{Keeps, Ensures-bind, Ensures-if, Ensures-raise}
use fastapi_auth_service.Db.Keeps.{keeps_rules, Keeps-modify}
use fastapi_auth_service.Credit.Account.{
  post_and_respond, add_to_credit, take_from_credit, create_credit, or_create, get_user_credit,
  add_credits, use_credits,
}
use fastapi_auth_service.Credit.Ledger.Service.{db_error_handler-Ensures}
use fastapi_auth_service.Credit.Writes.{BalanceWrites, EntryWrites, IsPurchase, is_grant}

purchase-is_grant : (t : TransactionType) → IsPurchase t → is_grant t ≡ false
purchase-is_grant TransactionType.credit_used h = refl
purchase-is_grant TransactionType.trial_credit_grant h = absurd h
purchase-is_grant TransactionType.credit_added h = refl
purchase-is_grant TransactionType.plan_purchase h = refl
purchase-is_grant TransactionType.plan_renewal h = refl
purchase-is_grant TransactionType.plan_upgrade h = refl
purchase-is_grant TransactionType.one_time_purchase h = refl

module _ {I : Db → Type 0} ⦃w : EntryWrites I⦄ where
  add_credit-Keeps : (c : UserCredit) → Keeps I (modify (add_credit c))
  add_credit-Keeps c = Keeps-modify _ (w.credit c)

  or_create-Keeps : (now : DateTime) (u : ℕ) (o : Option UserCredit) → Keeps I (or_create now u o)
  unfolding or_create create_credit
  or_create-Keeps now u none = search (keeps_rules, add_credit-Keeps) depth 8
  or_create-Keeps now u (some c) = search keeps_rules

  get_user_credit-Keeps : (now : DateTime) (u : ℕ) → Keeps I (get_user_credit now u)
  unfolding get_user_credit
  get_user_credit-Keeps now u = search (keeps_rules, or_create-Keeps)

  module _ (test : Text → Bool) (now : DateTime) (u : ℕ) where
    post_and_respond-Keeps :
        (f : UserCredit → UserCredit) (entry : ℕ → CreditTransaction) (new_balance : ℤ)
        (money : Option ℤ)
        → ((id : ℕ) → is_grant (entry id).transaction_type ≡ false)
        → Keeps I (post_and_respond test now f entry u new_balance money)
    unfolding post_and_respond
    post_and_respond-Keeps f entry new_balance money other =
        search (keeps_rules, entry-Keeps) depth 8
      where
        entry-Keeps :
            (id : ℕ) → Keeps I (modify (λ d. add_transaction (entry id) (set_credit u f d)))
        entry-Keeps id = Keeps-modify _ (λ d h. w.entry (entry id) u f d (other id) h)

    add_credits-Keeps :
        (amount : ℤ) (reference_id : Option Text) (description : Option Description)
        (transaction_type : TransactionType) (plan_id subscription_id : Option ℕ) (money : Option ℤ)
        → is_grant transaction_type ≡ false
        → Keeps I (
            add_credits test now u amount reference_id description transaction_type plan_id
              subscription_id money)
    unfolding add_credits add_to_credit
    add_credits-Keeps amount reference_id description transaction_type plan_id subscription_id money
          other =
        db_error_handler-Ensures _ (
          Ensures-bind _ _ (get_user_credit-Keeps now u)
            (λ credit. post_and_respond-Keeps _ _ _ money (λ _. other)))

    use_credits-Keeps :
        (amount : ℤ) (reference_id : Option Text) (description : Option Description)
        (money : Option ℤ)
        → Keeps I (use_credits test now u amount reference_id description money)
    unfolding use_credits take_from_credit
    use_credits-Keeps amount reference_id description money = db_error_handler-Ensures _ (
        Ensures-bind _ _ (get_user_credit-Keeps now u) (λ credit.
          Ensures-if (ltb_ℤ credit.balance amount) _ _ (λ _. Ensures-raise insufficient_credits)
            (λ _. post_and_respond-Keeps _ _ _ money (λ _. refl))))

  pub entry_balance_writes : BalanceWrites I
  entry_balance_writes = record { gets_credit = get_user_credit-Keeps; uses = use_credits-Keeps }

  pub adds_entry :
      (test : Text → Bool) (now : DateTime) (u : ℕ) (amount : ℤ) (reference_id : Option Text)
      (description : Option Description) (transaction_type : TransactionType)
      (plan_id subscription_id : Option ℕ) (money : Option ℤ)
      → IsPurchase transaction_type
      → Keeps I (
          add_credits test now u amount reference_id description transaction_type plan_id
            subscription_id money)
  adds_entry test now u amount reference_id description type plan_id subscription_id money
        purchase =
      add_credits-Keeps test now u amount reference_id description type plan_id subscription_id
        money (purchase-is_grant type purchase)
