-- ===== src/Credit/Verified.antt =====
-- `verify_and_process_one_time_payment` and `verify_and_process_subscription`
-- (app/services/credit/transaction.py): purchases that Stripe is asked about.
use fastapi_auth_service.Prelude.{
  ℕ, ◌==◌, Bool, true, false, not, Option, none, some, if◌then◌else◌,
}
use fastapi_auth_service.Prelude.Int.{ℤ, pos, leb_ℤ}
use fastapi_auth_service.Db.Schema.{Text, DateTime, Plan, Subscription, Status, Description}
use fastapi_auth_service.Db.Tables.{set_subscription}
use fastapi_auth_service.Db.Session.{
  Exn, http, value_error, Result, ok, err, Exec, pure, raise, lift, ◌>>=◌, ◌>>◌, try_except, call,
  modify, commit,
}
use fastapi_auth_service.Stripe.{
  StripeApi, StripeSubscription, PaymentMethod, ObjectType, Verification, verify_transaction_id,
  verify_subscription_active, cancel_subscription, check_active_subscription,
}
use fastapi_auth_service.Credit.Account.{TransactionResponse, db_error_handler}
use fastapi_auth_service.Credit.Plans.{get_plan_by_id, find_matching_plan}
use fastapi_auth_service.Credit.Purchase.{
  require, or_else, check_transaction_exists, purchase_one_time_credits, purchase_plan,
}

-- `except HTTPException: raise` and `except Exception: raise HTTPException(500)`.
abbrev pub as_http_500 : {A : Type 0} → Exn → Exec A
as_http_500 (http status) = raise (http status)
as_http_500 _ = raise (http 500)

-- The same, below `except ValueError: raise HTTPException(400)`.
abbrev pub as_http : {A : Type 0} → Exn → Exec A
as_http (http status) = raise (http status)
as_http value_error = raise (http 400)
as_http _ = raise (http 500)

abbrev pub is_payment_intent : Option ObjectType → Bool
is_payment_intent (some ObjectType.payment_intent) = true
is_payment_intent _ = false

abbrev pub is_subscription : Option ObjectType → Bool
is_subscription (some ObjectType.subscription) = true
is_subscription _ = false

abbrev pub positive : ℤ → Bool
positive a = not (leb_ℤ a (pos 0))

-- The fingerprint of the subscription's card, or the HTTP error of the gate for free plans.
unfoldable pub fingerprint_of : Result (Option PaymentMethod) → Result Text
fingerprint_of (ok (some m)) = elim m.card_fingerprint [ some f ↦ ok f | none ↦ err (http 400) ]
fingerprint_of (ok none) = err (http 400)
fingerprint_of (err e) = err (http 500)

unfoldable pub gate_answer : StripeApi → Result (Option StripeSubscription) → Result Text
unfolding fingerprint_of
gate_answer api (ok (some s)) = elim s.default_payment_method [
  | some m ↦ fingerprint_of (api.retrieve_payment_method m)
  | none ↦ err (http 400)
]
gate_answer api (ok none) = err (http 400)
gate_answer api (err e) = err (http 500)

unfoldable pub plan_or_raise : Option Plan → Result Plan
plan_or_raise none = err (http 500)
plan_or_raise (some p) = ok p

-- `if not key: raise …`, of a text or a number.
unfoldable pub key_or_raise : ℕ → Option ℕ → Result ℕ
key_or_raise status none = err (http status)
key_or_raise status (some k) = if k == 0 then err (http status) else ok k

unfoldable pub cancel_other_by_id : StripeApi → Option Text → Exec (Unit {0})
unfolding cancel_subscription
cancel_other_by_id api none = pure tt
cancel_other_by_id api (some t) = do cancel_subscription api t; pure tt

unfoldable pub cancel_other : StripeApi → Option Subscription → Exec (Unit {0})
unfolding cancel_other_by_id
cancel_other api none = pure tt
cancel_other api (some s) = cancel_other_by_id api s.stripe_subscription_id

-- The card is read and then not compared with any other: the check is disabled. What is left is
-- the nested transaction, two calls of the database.
unfoldable pub free_plan_gate : StripeApi → Bool → Text → Exec (Unit {0})
unfolding gate_answer
free_plan_gate api limited transaction_id =
    if limited
    then try_except
        (do lift (gate_answer api (api.retrieve_subscription transaction_id)); call; call)
        as_http_500
    else pure tt

unfoldable pub keep_if_active :
    Text → TransactionResponse × Subscription → Bool → Exec (TransactionResponse × Subscription)
keep_if_active transaction_id bought true = pure bought
keep_if_active transaction_id bought false = do
  modify
      (set_subscription bought.1.id (λ r. record r { is_active = false; status = Status.inactive }))
  commit
  raise value_error

module _ (api : StripeApi) (test : Text → Bool) (now : DateTime) (uuid : Text) where
  unfoldable pub process_one_time : ℕ → Text → Bool → Option ℤ → Exec TransactionResponse
  unfolding check_transaction_exists verify_transaction_id purchase_one_time_credits
  process_one_time user_id transaction_id background_tasks amount = do
    let result : Verification = verify_transaction_id api transaction_id
    require result.verified 400
    require (is_payment_intent result.object_type) 400
    existing ← check_transaction_exists transaction_id
    require (not existing) 400
    let stripe_amount : ℤ = or_else result.amount (pos 0)
    require (positive stripe_amount) 400
    purchase_one_time_credits test now uuid user_id (or_else amount stripe_amount) stripe_amount
        (some transaction_id) (some (Description.verified_one_time_purchase transaction_id))
        background_tasks

  unfoldable pub verify_and_process_one_time_payment :
      ℕ → Text → Bool → Option ℤ → Exec TransactionResponse
  unfolding process_one_time db_error_handler
  verify_and_process_one_time_payment user_id transaction_id background_tasks amount =
      db_error_handler
        (try_except (process_one_time user_id transaction_id background_tasks amount) as_http_500)

  unfoldable pub process_subscription :
      ℕ → Text → Bool → Option ℤ → Exec (TransactionResponse × Subscription)
  unfolding verify_transaction_id check_active_subscription cancel_other key_or_raise
      find_matching_plan get_plan_by_id plan_or_raise free_plan_gate purchase_plan
      verify_subscription_active keep_if_active
  process_subscription user_id transaction_id background_tasks amount = do
    let result : Verification = verify_transaction_id api transaction_id
    require result.verified 400
    require (is_subscription result.object_type) 400
    active ← check_active_subscription api user_id
    cancel_other api active
    price ← lift (key_or_raise 400 result.plan_id)
    matching ← find_matching_plan price
    plan_id ← lift (key_or_raise 500 matching)
    found ← get_plan_by_id plan_id
    plan ← lift (plan_or_raise found)
    free_plan_gate api plan.is_limited_free transaction_id
    bought ←
        purchase_plan test now uuid user_id plan_id (some transaction_id)
          (some (Description.verified_subscription transaction_id)) background_tasks
          (some transaction_id) amount
    keep_if_active transaction_id bought (verify_subscription_active api transaction_id)

  unfoldable pub verify_and_process_subscription :
      ℕ → Text → Bool → Option ℤ → Exec (TransactionResponse × Subscription)
  unfolding check_transaction_exists process_subscription db_error_handler
  verify_and_process_subscription user_id transaction_id background_tasks amount =
      db_error_handler (do
        existing ← check_transaction_exists transaction_id
        require (not existing) 400
        try_except (process_subscription user_id transaction_id background_tasks amount) as_http)
