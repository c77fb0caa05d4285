-- ===== src/Credit/Account.antt =====
-- `BaseCreditService` (app/services/credit/base.py), `db_error_handler` (decorators.py) and
-- `create_transaction_response` (utils.py). `now` is what the clock reads during the call.
use fastapi_auth_service.Prelude.{
  ℕ, Bool, true, false, Option, none, some, ◌==◌, if◌then◌else◌, select,
}
use fastapi_auth_service.Prelude.Int.{ℤ, pos, ◌+ℤ◌, ◌-ℤ◌, ltb_ℤ, leb_ℤ}
use fastapi_auth_service.Db.Schema.{
  Text, DateTime, UserCredit, CreditTransaction, TransactionType, Description,
}
use fastapi_auth_service.Db.Tables.{add_credit, add_transaction, set_credit}
use fastapi_auth_service.Db.Session.{
  Exn, http, insufficient_credits, value_error, Result, ok, err, Exec, pure, raise, ◌>>=◌, ◌>>◌,
  lift, try_except, query, modify, gets, commit, rollback, refresh, scalar_one_or_none,
}

unfoldable pub rollback_and_raise : {A : Type 0} → Exn → Exec A
rollback_and_raise (http status) = raise (http status)
rollback_and_raise e = do rollback; raise (http 500)

-- An `HTTPException` passes; any other exception becomes an HTTP 500 after a rollback.
unfoldable pub db_error_handler : {A : Type 0} → Exec A → Exec A
unfolding rollback_and_raise rollback
db_error_handler m = try_except m rollback_and_raise

-- `credit_schemas.TransactionResponse`. The monetary amount counts tenths of a cent.
pub record TransactionResponse : Type 0 where
  pub id : ℕ
  pub user_id : ℕ
  pub amount : ℤ
  pub transaction_type : TransactionType
  pub reference_id : Option Text
  pub new_balance : ℤ
  pub plan_id : Option ℕ
  pub subscription_id : Option ℕ
  pub monetary_amount : Option ℤ

-- `"Verified" in description`, of the texts that the services write; of a caller's text and of a
-- plan's name it is a parameter.
unfoldable pub mentions_verified : (Text → Bool) → Option Description → Bool
mentions_verified test none = false
mentions_verified test (some (Description.supplied t)) = test t
mentions_verified test (some (Description.one_time_purchase_of a)) = false
mentions_verified test (some (Description.verified_one_time_purchase t)) = true
mentions_verified test (some (Description.verified_subscription t)) = true
mentions_verified test (some (Description.purchase_of_plan name)) = test name
mentions_verified test (some (Description.renewal_of_plan name)) = test name
mentions_verified test (some (Description.initial_trial_credits a)) = false

unfoldable pub or_estimate : Option ℤ → Bool → ℤ → Option ℤ
or_estimate (some m) verified amount = some m
or_estimate none verified amount = if verified then some amount else none

module _ (test : Text → Bool) where
  -- The schema's `gt=0` on the amount raises a validation error.
  unfoldable pub create_transaction_response :
      CreditTransaction → ℤ → Option ℤ → Result TransactionResponse
  unfolding or_estimate mentions_verified
  create_transaction_response t new_balance monetary_amount =
      if leb_ℤ t.amount (pos 0)
      then err value_error
      else ok (record {
        id = t.id;
        user_id = t.user_id;
        amount = t.amount;
        transaction_type = t.transaction_type;
        reference_id = t.reference_id;
        new_balance = new_balance;
        plan_id = t.plan_id;
        subscription_id = t.subscription_id;
        monetary_amount =
            or_estimate monetary_amount (mentions_verified test t.description) t.amount;
      })

module _ (now : DateTime) where
  unfoldable pub create_credit : ℕ → Exec UserCredit
  create_credit user_id = do
    id ← gets (λ d. d.next_id)
    let credit : UserCredit = record {
      id = id;
      user_id = user_id;
      balance = pos 0;
      updated_at = now;
    }
    modify (add_credit credit)
    commit
    refresh
    pure credit

  unfoldable pub or_create : ℕ → Option UserCredit → Exec UserCredit
  unfolding create_credit
  or_create user_id (some credit) = pure credit
  or_create user_id none = create_credit user_id

  unfoldable pub get_user_credit : ℕ → Exec UserCredit
  unfolding or_create
  get_user_credit user_id = do
    rows ← query (λ d. select (λ c. c.user_id == user_id) d.credits)
    found ← scalar_one_or_none rows
    or_create user_id found

  -- `CreditBalanceResponse`, without the echoed user id.
  unfoldable pub get_balance : ℕ → Exec (ℤ × DateTime)
  unfolding get_user_credit
  get_balance user_id = do
    credit ← get_user_credit user_id
    pure (credit.balance, credit.updated_at)

abbrev pub change_balance : DateTime → ℤ → UserCredit → UserCredit
change_balance now amount c = record c { balance = c.balance +ℤ amount; updated_at = now }

abbrev pub take_balance : DateTime → ℤ → UserCredit → UserCredit
take_balance now amount c = record c { balance = c.balance -ℤ amount; updated_at = now }

module _ (test : Text → Bool) (now : DateTime) where
  -- The change of the balance, the transaction and the commit, once the credit row is at hand.
  unfoldable pub post_and_respond :
      (UserCredit → UserCredit)
      → (ℕ → CreditTransaction)
      → ℕ
      → ℤ
      → Option ℤ
      → Exec TransactionResponse
  post_and_respond f entry user_id new_balance monetary_amount = do
    id ← gets (λ d. d.next_id)
    modify (λ d. add_transaction (entry id) (set_credit user_id f d))
    commit
    refresh
    lift (create_transaction_response test (entry id) new_balance monetary_amount)

  unfoldable pub add_to_credit :
      ℕ
      → ℤ
      → Option Text
      → Option Description
      → TransactionType
      → Option ℕ
      → Option ℕ
      → Option ℤ
      → UserCredit
      → Exec TransactionResponse
  unfolding post_and_respond
  add_to_credit user_id amount reference_id description transaction_type plan_id subscription_id
        monetary_amount credit =
      post_and_respond (change_balance now amount)
        (λ id. record {
          id = id;
          user_id = user_id;
          user_credit_id = credit.id;
          amount = amount;
          transaction_type = transaction_type;
          reference_id = reference_id;
          description = description;
          plan_id = plan_id;
          subscription_id = subscription_id;
          created_at = now;
        })
        user_id (credit.balance +ℤ amount) monetary_amount

  unfoldable pub add_credits :
      ℕ
      → ℤ
      → Option Text
      → Option Description
      → TransactionType
      → Option ℕ
      → Option ℕ
      → Option ℤ
      → Exec TransactionResponse
  unfolding add_to_credit get_user_credit db_error_handler
  add_credits user_id amount reference_id description transaction_type plan_id subscription_id
        monetary_amount =
      db_error_handler (
        get_user_credit now user_id
        >>= add_to_credit user_id amount reference_id description transaction_type plan_id
            subscription_id monetary_amount)

  unfoldable pub take_from_credit :
      ℕ → ℤ → Option Text → Option Description → Option ℤ → UserCredit → Exec TransactionResponse
  unfolding post_and_respond
  take_from_credit user_id amount reference_id description monetary_amount credit =
      if ltb_ℤ credit.balance amount
      then raise insufficient_credits
      else post_and_respond (take_balance now amount)
          (λ id. record {
            id = id;
            user_id = user_id;
            user_credit_id = credit.id;
            amount = amount;
            transaction_type = TransactionType.credit_used;
            reference_id = reference_id;
            description = description;
            plan_id = none;
            subscription_id = none;
            created_at = now;
          })
          user_id (credit.balance -ℤ amount) monetary_amount

  unfoldable pub use_credits :
      ℕ → ℤ → Option Text → Option Description → Option ℤ → Exec TransactionResponse
  unfolding take_from_credit get_user_credit db_error_handler
  use_credits user_id amount reference_id description monetary_amount = db_error_handler (
      get_user_credit now user_id
      >>= take_from_credit user_id amount reference_id description monetary_amount)
