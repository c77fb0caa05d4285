-- ===== src/Credit/Writes/Purchases.antt =====
-- The purchases of app/services/credit/transaction.py and a database invariant.
use fastapi_auth_service.Prelude.{ℕ, Bool, Option, none, some}
use fastapi_auth_service.Prelude.Int.{ℤ}
use fastapi_auth_service.Db.Schema.{Text, DateTime, Db, User, Plan, Subscription, Description}
use fastapi_auth_service.Db.Tables.{set_subscription, add_subscription}
use fastapi_auth_service.Db.Session.{Exn, Exec, modify}
use fastapi_auth_service.Db.Ensures.{Keeps}
use fastapi_auth_service.Db.Keeps.{keeps_rules, Keeps-modify, Keeps-bind, Keeps-try}
use fastapi_auth_service.Credit.Account.{db_error_handler}
use fastapi_auth_service.Credit.Plans
use fastapi_auth_service.Credit.Purchase.{
  notify_found, send_email_notification, purchase_one_time_credits, deactivate_existing,
  create_subscription, mark_payment_issue, credit_plan, purchase_plan,
}
use fastapi_auth_service.Credit.Writes.{CreditWrites}
use fastapi_auth_service.Credit.Ledger.Service.{db_error_handler-Ensures}

module _ {I : Db → Type 0} ⦃w : CreditWrites I⦄ where
  -- A write to `subscriptions` keeps the invariant.
  pub set_subscription-Keeps :
      (id : ℕ) (f : Subscription → Subscription) → Keeps I (modify (set_subscription id f))
  unfolding set_subscription
  set_subscription-Keeps id f = Keeps-modify _ (w.subscription id f)

  pub add_subscription-Keeps : (s : Subscription) → Keeps I (modify (add_subscription s))
  add_subscription-Keeps s = Keeps-modify _ (w.new_subscription s)

  pub db_error_handler-Keeps : {A : Type 0} (m : Exec A) → Keeps I m → Keeps I (db_error_handler m)
  db_error_handler-Keeps m h = db_error_handler-Ensures m h

pub ruleset write_rules =
    (keeps_rules, set_subscription-Keeps, add_subscription-Keeps, db_error_handler-Keeps)

module _ {I : Db → Type 0} ⦃w : CreditWrites I⦄ where
  notify_found-Keeps : (u : Option User) → Keeps I (notify_found u)
  unfolding notify_found
  notify_found-Keeps none = search write_rules
  notify_found-Keeps (some u) = search write_rules

  pub send_email_notification-Keeps : (user : ℕ) → Keeps I (send_email_notification user)
  unfolding send_email_notification
  send_email_notification-Keeps user = search (write_rules, notify_found-Keeps)

  deactivate_existing-Keeps : (s : Option Subscription) → Keeps I (deactivate_existing s)
  unfolding deactivate_existing
  deactivate_existing-Keeps none = search write_rules
  deactivate_existing-Keeps (some s) = search write_rules

  module _ (test : Text → Bool) (now : DateTime) (uuid : Text) where
    -- A one-time purchase keeps the invariant.
    pub purchase_one_time_credits-Keeps :
        (user_id : ℕ) (amount price : ℤ) (reference_id : Option Text)
        (description : Option Description) (background_tasks : Bool)
        → Keeps I (
            purchase_one_time_credits test now uuid user_id amount price reference_id description
              background_tasks)
    unfolding purchase_one_time_credits
    purchase_one_time_credits-Keeps user_id amount price reference_id description background_tasks =
        db_error_handler-Keeps _ (
          Keeps-bind _ _ (w.adds test now user_id amount _ _ _ _ _ _ tt)
            λ t. search (write_rules, send_email_notification-Keeps))

    create_subscription-Keeps :
        (user_id plan_id : ℕ) (stripe_id : Option Text) (plan : Option Plan)
        → Keeps I (create_subscription now user_id plan_id stripe_id plan)
    unfolding create_subscription Plans.get_active_subscription
    create_subscription-Keeps user_id plan_id stripe_id none = search write_rules
    create_subscription-Keeps user_id plan_id stripe_id (some plan) =
        search (write_rules, deactivate_existing-Keeps) depth 9

    mark_payment_issue-Keeps :
        {A : Type 0} (id : ℕ) (e : Exn) → Keeps I (mark_payment_issue {A = A} id e)
    unfolding mark_payment_issue
    mark_payment_issue-Keeps id e = search write_rules

    credit_plan-Keeps :
        (user_id plan_id : ℕ) (reference_id : Option Text) (description : Option Description)
        (background_tasks : Bool) (credit_amount : Option ℤ) (plan : Plan) (s : Subscription)
        → Keeps I (
            credit_plan test now uuid user_id plan_id reference_id description background_tasks
              credit_amount plan s)
    unfolding credit_plan
    credit_plan-Keeps user_id plan_id reference_id description background_tasks credit_amount plan
          s =
        Keeps-bind _ _
          (Keeps-try _ _ (w.adds test now user_id _ _ _ _ _ _ _ tt) (mark_payment_issue-Keeps s.id))
          λ t. search (write_rules, send_email_notification-Keeps)

    -- Buying a plan keeps the invariant, on each of its error paths too.
    pub purchase_plan-Keeps :
        (user_id plan_id : ℕ) (reference_id : Option Text) (description : Option Description)
        (background_tasks : Bool) (stripe_id : Option Text) (credit_amount : Option ℤ)
        → Keeps I (
            purchase_plan test now uuid user_id plan_id reference_id description background_tasks
              stripe_id credit_amount)
    unfolding purchase_plan Plans.get_plan_by_id
    purchase_plan-Keeps user_id plan_id reference_id description background_tasks stripe_id
          credit_amount =
        search (write_rules, create_subscription-Keeps, credit_plan-Keeps) depth 9
