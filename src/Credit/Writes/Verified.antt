-- ===== src/Credit/Writes/Verified.antt =====
-- The verified purchases of app/services/credit/transaction.py, what they ask of Stripe, and a
-- database invariant.
use fastapi_auth_service.Prelude.{ℕ, Bool, true, false, Option, none, some}
use fastapi_auth_service.Prelude.Int.{ℤ}
use fastapi_auth_service.Db.Schema.{Text, DateTime, Db, Subscription}
use fastapi_auth_service.Db.Session.{Exn, http, value_error, Result, ok, err}
use fastapi_auth_service.Db.Ensures.{Keeps}
use fastapi_auth_service.Db.Keeps.{Keeps-pure, Keeps-raise}
use fastapi_auth_service.Stripe.{
  StripeApi, StripeSubscription, cancel_subscription, sync_live, sync_answer, look_up_in_stripe,
  active_in_stripe, check_active_subscription,
}
use fastapi_auth_service.Credit.Account.{TransactionResponse}
use fastapi_auth_service.Credit.Plans
use fastapi_auth_service.Credit.Purchase.{check_transaction_exists}
use fastapi_auth_service.Credit.Verified.{
  as_http_500, as_http, cancel_other_by_id, cancel_other, free_plan_gate, keep_if_active,
  process_one_time, verify_and_process_one_time_payment, process_subscription,
  verify_and_process_subscription,
}
use fastapi_auth_service.Credit.Writes.{CreditWrites}
use fastapi_auth_service.Credit.Writes.Purchases.{
  write_rules, purchase_one_time_credits-Keeps, purchase_plan-Keeps,
}

module _ {I : Db → Type 0} ⦃w : CreditWrites I⦄ where
  as_http_500-Keeps : {A : Type 0} (e : Exn) → Keeps I (as_http_500 {A = A} e)
  as_http_500-Keeps (http status) = Keeps-raise (http status)
  as_http_500-Keeps _ = Keeps-raise (http 500)

  as_http-Keeps : {A : Type 0} (e : Exn) → Keeps I (as_http {A = A} e)
  as_http-Keeps (http status) = Keeps-raise (http status)
  as_http-Keeps value_error = Keeps-raise (http 400)
  as_http-Keeps _ = Keeps-raise (http 500)

  module _ (api : StripeApi) where
    sync_live-Keeps :
        (s : Subscription) (live : StripeSubscription) → Keeps I (sync_live api s live)
    unfolding sync_live
    sync_live-Keeps s live = search write_rules

    sync_answer-Keeps :
        (s : Subscription) (r : Result (Option StripeSubscription)) → Keeps I (sync_answer api s r)
    unfolding sync_answer
    sync_answer-Keeps s (ok (some live)) = sync_live-Keeps s live
    sync_answer-Keeps s (ok none) = Keeps-pure none
    sync_answer-Keeps s (err e) = Keeps-pure none

    look_up_in_stripe-Keeps :
        (s : Subscription) (t : Option Text) → Keeps I (look_up_in_stripe api s t)
    unfolding look_up_in_stripe
    look_up_in_stripe-Keeps s none = Keeps-pure none
    look_up_in_stripe-Keeps s (some t) = search (write_rules, sync_answer-Keeps)

    active_in_stripe-Keeps : (s : Option Subscription) → Keeps I (active_in_stripe api s)
    unfolding active_in_stripe
    active_in_stripe-Keeps none = Keeps-pure none
    active_in_stripe-Keeps (some s) = look_up_in_stripe-Keeps s s.stripe_subscription_id

    check_active_subscription-Keeps : (u : ℕ) → Keeps I (check_active_subscription api u)
    unfolding check_active_subscription
    check_active_subscription-Keeps u = search (write_rules, active_in_stripe-Keeps)

    pub cancel_subscription-Keeps : (t : Text) → Keeps I (cancel_subscription api t)
    unfolding cancel_subscription
    cancel_subscription-Keeps t = search write_rules

    cancel_other_by_id-Keeps : (t : Option Text) → Keeps I (cancel_other_by_id api t)
    unfolding cancel_other_by_id
    cancel_other_by_id-Keeps none = Keeps-pure tt
    cancel_other_by_id-Keeps (some t) = search (write_rules, cancel_subscription-Keeps)

    cancel_other-Keeps : (s : Option Subscription) → Keeps I (cancel_other api s)
    unfolding cancel_other
    cancel_other-Keeps none = Keeps-pure tt
    cancel_other-Keeps (some s) = cancel_other_by_id-Keeps s.stripe_subscription_id

    free_plan_gate-Keeps : (limited : Bool) (t : Text) → Keeps I (free_plan_gate api limited t)
    unfolding free_plan_gate
    free_plan_gate-Keeps limited t = search (write_rules, as_http_500-Keeps)

  keep_if_active-Keeps :
      (t : Text) (bought : TransactionResponse × Subscription) (active : Bool)
      → Keeps I (keep_if_active t bought active)
  unfolding keep_if_active
  keep_if_active-Keeps t bought true = Keeps-pure bought
  keep_if_active-Keeps t bought false = search write_rules

ruleset verified_rules = (
  write_rules, as_http_500-Keeps, as_http-Keeps, check_active_subscription-Keeps,
  cancel_other-Keeps, free_plan_gate-Keeps, keep_if_active-Keeps, purchase_one_time_credits-Keeps,
  purchase_plan-Keeps,
)

module _ {I : Db → Type 0} ⦃w : CreditWrites I⦄ where
  module _ (api : StripeApi) (test : Text → Bool) (now : DateTime) (uuid : Text) where
    process_one_time-Keeps :
        (user_id : ℕ) (t : Text) (background_tasks : Bool) (amount : Option ℤ)
        → Keeps I (process_one_time api test now uuid user_id t background_tasks amount)
    unfolding process_one_time check_transaction_exists
    process_one_time-Keeps user_id t background_tasks amount = search verified_rules depth 12

    -- A verified one-time payment keeps the invariant.
    pub verify_and_process_one_time_payment-Keeps :
        (user_id : ℕ) (t : Text) (background_tasks : Bool) (amount : Option ℤ)
        → Keeps I (
            verify_and_process_one_time_payment api test now uuid user_id t background_tasks amount)
    unfolding verify_and_process_one_time_payment
    verify_and_process_one_time_payment-Keeps user_id t background_tasks amount =
        search (verified_rules, process_one_time-Keeps)

    process_subscription-Keeps :
        (user_id : ℕ) (t : Text) (background_tasks : Bool) (amount : Option ℤ)
        → Keeps I (process_subscription api test now uuid user_id t background_tasks amount)
    unfolding process_subscription Plans.find_matching_plan Plans.get_plan_by_id
    process_subscription-Keeps user_id t background_tasks amount = search verified_rules depth 20

    -- A verified subscription keeps the invariant, also where it is taken back at the end.
    pub verify_and_process_subscription-Keeps :
        (user_id : ℕ) (t : Text) (background_tasks : Bool) (amount : Option ℤ)
        → Keeps I
            (verify_and_process_subscription api test now uuid user_id t background_tasks amount)
    unfolding verify_and_process_subscription check_transaction_exists
    verify_and_process_subscription-Keeps user_id t background_tasks amount =
        search (verified_rules, process_subscription-Keeps) depth 9
