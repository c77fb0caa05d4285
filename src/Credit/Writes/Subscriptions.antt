-- ===== src/Credit/Writes/Subscriptions.antt =====
-- The methods of app/services/credit/subscription.py and a database invariant.
use fastapi_auth_service.Prelude.{ℕ, Bool, false, Option, none, some}
use fastapi_auth_service.Prelude.Int.{ℤ}
use fastapi_auth_service.Db.Schema.{
  Text, DateTime, Db, Plan, Subscription, Status, Description, TransactionType,
}
use fastapi_auth_service.Db.Session.{Exn, http}
use fastapi_auth_service.Db.Ensures.{Keeps}
use fastapi_auth_service.Db.Keeps.{Keeps-pure, Keeps-raise}
use fastapi_auth_service.Stripe.{StripeApi}
use fastapi_auth_service.Credit.Account.{add_credits}
use fastapi_auth_service.Credit.Plans
use fastapi_auth_service.Credit.Subscriptions.{
  renew_active, deactivate, renew_with_plan, renew_found, renew_subscription, tell_stripe,
  set_auto_renew, update_subscription_auto_renew, set_status, update_subscription_status,
  cancel_in_stripe_if, notify_canceled, cancel_active, cancel_found, give_up,
  cancel_user_subscription,
}
use fastapi_auth_service.Credit.Writes.{CreditWrites}
use fastapi_auth_service.Credit.Writes.Purchases.{write_rules, send_email_notification-Keeps}
use fastapi_auth_service.Credit.Writes.Verified.{cancel_subscription-Keeps}

module _ {I : Db → Type 0} ⦃w : CreditWrites I⦄ where
  deactivate-Keeps : (id : ℕ) → Keeps I (deactivate id)
  unfolding deactivate
  deactivate-Keeps id = search write_rules

  module _ (api : StripeApi) (test : Text → Bool) (now : DateTime) (uuid : Text) where
    add_renewal-Keeps :
        (user_id : ℕ) (amount : ℤ) (reference_id : Option Text) (description : Option Description)
        (plan_id subscription_id : Option ℕ) (money : Option ℤ)
        → Keeps I (
            add_credits test now user_id amount reference_id description
              TransactionType.plan_renewal plan_id subscription_id money)
    add_renewal-Keeps user_id amount reference_id description plan_id subscription_id money =
        w.adds test now user_id amount reference_id description TransactionType.plan_renewal plan_id
          subscription_id money tt

    renew_active-Keeps :
        (s : Subscription) (plan : Plan) → Keeps I (renew_active api test now uuid s plan)
    unfolding renew_active
    renew_active-Keeps s plan = search (write_rules, add_renewal-Keeps) depth 9

    renew_with_plan-Keeps :
        (s : Subscription) (plan : Option Plan) → Keeps I (renew_with_plan api test now uuid s plan)
    unfolding renew_with_plan
    renew_with_plan-Keeps s none = Keeps-pure none
    renew_with_plan-Keeps s (some plan) = search (write_rules, renew_active-Keeps, deactivate-Keeps)

    renew_found-Keeps : (s : Option Subscription) → Keeps I (renew_found api test now uuid s)
    unfolding renew_found Plans.get_plan_by_id
    renew_found-Keeps none = Keeps-pure none
    renew_found-Keeps (some s) = search (write_rules, renew_with_plan-Keeps)

    -- A renewal keeps the invariant.
    pub renew_subscription-Keeps : (id : ℕ) → Keeps I (renew_subscription api test now uuid id)
    unfolding renew_subscription Plans.get_subscription_by_id
    renew_subscription-Keeps id = search (write_rules, renew_found-Keeps)

  module _ (api : StripeApi) where
    tell_stripe-Keeps : (t : Option Text) → Keeps I (tell_stripe api t)
    unfolding tell_stripe
    tell_stripe-Keeps none = Keeps-pure tt
    tell_stripe-Keeps (some t) = search write_rules

    set_auto_renew-Keeps : (b : Bool) (s : Option Subscription) → Keeps I (set_auto_renew api b s)
    unfolding set_auto_renew
    set_auto_renew-Keeps b none = Keeps-raise (http 404)
    set_auto_renew-Keeps b (some s) = search (write_rules, tell_stripe-Keeps)

    -- Changing the auto-renewal setting keeps the invariant.
    pub update_subscription_auto_renew-Keeps :
        (id : ℕ) (b : Bool) → Keeps I (update_subscription_auto_renew api id b)
    unfolding update_subscription_auto_renew Plans.get_subscription_by_id
    update_subscription_auto_renew-Keeps id b = search (write_rules, set_auto_renew-Keeps)

  set_status-Keeps : (v : Status) (s : Option Subscription) → Keeps I (set_status v s)
  unfolding set_status
  set_status-Keeps v none = Keeps-pure none
  set_status-Keeps v (some s) = search write_rules

  -- A status from Stripe keeps the invariant.
  pub update_subscription_status-Keeps :
      (t : Text) (v : Status) → Keeps I (update_subscription_status t v)
  unfolding update_subscription_status Plans.get_subscription_by_stripe_id
  update_subscription_status-Keeps t v = search (write_rules, set_status-Keeps)

  notify_canceled-Keeps : (b : Bool) (user_id : Option ℕ) → Keeps I (notify_canceled b user_id)
  unfolding notify_canceled
  notify_canceled-Keeps b none = Keeps-pure tt
  notify_canceled-Keeps b (some u) = search (write_rules, send_email_notification-Keeps)

  give_up-Keeps : (e : Exn) → Keeps I (give_up e)
  give_up-Keeps (http status) = Keeps-raise (http status)
  give_up-Keeps _ = Keeps-pure _

  module _ (api : StripeApi) where
    cancel_in_stripe_if-Keeps : (b : Bool) (t : Option Text) → Keeps I (cancel_in_stripe_if api b t)
    unfolding cancel_in_stripe_if
    cancel_in_stripe_if-Keeps b none = Keeps-pure false
    cancel_in_stripe_if-Keeps b (some t) = search (write_rules, cancel_subscription-Keeps)

    cancel_active-Keeps :
        (user_id : Option ℕ) (in_stripe background_tasks : Bool) (s : Subscription)
        → Keeps I (cancel_active api user_id in_stripe background_tasks s)
    unfolding cancel_active Plans.get_plan_by_id
    cancel_active-Keeps user_id in_stripe background_tasks s =
        search (write_rules, cancel_in_stripe_if-Keeps, notify_canceled-Keeps) depth 9

    cancel_found-Keeps :
        (user_id : Option ℕ) (in_stripe background_tasks : Bool) (s : Option Subscription)
        → Keeps I (cancel_found api user_id in_stripe background_tasks s)
    unfolding cancel_found
    cancel_found-Keeps user_id in_stripe background_tasks none = Keeps-pure _
    cancel_found-Keeps user_id in_stripe background_tasks (some s) =
        search (write_rules, cancel_active-Keeps)

    -- A cancellation keeps the invariant.
    pub cancel_user_subscription-Keeps :
        (id : ℕ) (user_id : Option ℕ) (in_stripe background_tasks : Bool)
        → Keeps I (cancel_user_subscription api id user_id in_stripe background_tasks)
    unfolding cancel_user_subscription Plans.get_subscription_by_id
    cancel_user_subscription-Keeps id user_id in_stripe background_tasks =
        search (write_rules, cancel_found-Keeps, give_up-Keeps) depth 7
