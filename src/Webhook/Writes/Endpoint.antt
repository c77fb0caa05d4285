-- ===== src/Webhook/Writes/Endpoint.antt =====
-- The handlers for updates and invoices, the endpoint, and a database invariant.
use fastapi_auth_service.Prelude.{ℕ, Bool, false, Option, none, some}
use fastapi_auth_service.Db.Schema.{
  Text, DateTime, Db, User, Subscription, AccountStatus, EventType,
}
use fastapi_auth_service.Db.Session.{Exn, http, integrity_error, other_exception}
use fastapi_auth_service.Db.Ensures.{Keeps}
use fastapi_auth_service.Db.Keeps.{Keeps-bind, Keeps-pure, Keeps-raise}
use fastapi_auth_service.Webhook.Events.{
  SubscriptionData, Platform, Invoice, StripeEvent, EventBody, checkout, subscription_created,
  subscription_updated, subscription_deleted, payment_succeeded, payment_failed, unhandled,
}
use fastapi_auth_service.Webhook.Updates.{
  publish_change, change_account_status, finish_update, created_on_update, subscription_to_update,
  updated_for, updated_user, handle_customer_subscription_updated,
}
use fastapi_auth_service.Webhook.Invoices.{
  invoice_user, activate_found, activate_subscription, unfreeze, paid_by, paid_for,
  handle_invoice_payment_succeeded, freeze, past_due_subscription, failed_subscription,
  failed_payment, failed_by, failed_for, failed_with, handle_invoice_payment_failed,
}
use fastapi_auth_service.Webhook.Endpoint.{
  is_event_processed, mark_failed, mark_event_as_processed, dispatch, endpoint_error, process,
  stripe_webhook_endpoint,
}
use fastapi_auth_service.Webhook.Writes.{WebhookWrites}
use fastapi_auth_service.Webhook.Writes.Users.{
  write_rules, user_rules, rollback_on_db_error-Keeps, handle_checkout_session_completed-Keeps,
}
use fastapi_auth_service.Webhook.Writes.Trials.{handle_customer_subscription_created-Keeps}

module _ {I : Db → Type 0} ⦃w : WebhookWrites I⦄ where
  publish_change-Keeps :
      (id : ℕ) (before after : AccountStatus) → Keeps I (publish_change id before after)
  unfolding publish_change
  publish_change-Keeps id before after = search write_rules

  change_account_status-Keeps :
      (u : User) (status : Option AccountStatus) → Keeps I (change_account_status u status)
  unfolding change_account_status
  change_account_status-Keeps u none = Keeps-pure tt
  change_account_status-Keeps u (some status) = search (write_rules, publish_change-Keeps)

  finish_update-Keeps : (e : SubscriptionData) (u : Option User) → Keeps I (finish_update e u)
  unfolding finish_update
  finish_update-Keeps e none = search write_rules
  finish_update-Keeps e (some u) = search (user_rules, change_account_status-Keeps)

  subscription_to_update-Keeps :
      (p : Platform) (id : ℕ) (e : SubscriptionData) (s : Option Subscription)
      → Keeps I (subscription_to_update p id e s)
  unfolding subscription_to_update created_on_update
  subscription_to_update-Keeps p id e none = search user_rules
  subscription_to_update-Keeps p id e (some s) = Keeps-pure s

  updated_for-Keeps :
      (p : Platform) (e : SubscriptionData) (id : Option ℕ) → Keeps I (updated_for p e id)
  unfolding updated_for
  updated_for-Keeps p e none = Keeps-pure tt
  updated_for-Keeps p e (some id) =
      search (user_rules, subscription_to_update-Keeps, finish_update-Keeps) depth 12

  handle_customer_subscription_updated-Keeps :
      (p : Platform) (e : SubscriptionData) → Keeps I (handle_customer_subscription_updated p e)
  unfolding handle_customer_subscription_updated updated_user
  handle_customer_subscription_updated-Keeps p e = search (user_rules, updated_for-Keeps)

  invoice_user-Keeps : (id : Option ℕ) (customer : Option Text) → Keeps I (invoice_user id customer)
  unfolding invoice_user
  invoice_user-Keeps id customer = search user_rules

  activate_found-Keeps : (s : Option Subscription) → Keeps I (activate_found s)
  unfolding activate_found
  activate_found-Keeps none = Keeps-pure tt
  activate_found-Keeps (some s) = search write_rules

  activate_subscription-Keeps : (t : Option Text) → Keeps I (activate_subscription t)
  unfolding activate_subscription
  activate_subscription-Keeps none = Keeps-pure tt
  activate_subscription-Keeps (some t) = search (user_rules, activate_found-Keeps)

  unfreeze-Keeps : (u : User) → Keeps I (unfreeze u)
  unfolding unfreeze
  unfreeze-Keeps u = search write_rules

  paid_by-Keeps : (i : Invoice) (u : Option User) → Keeps I (paid_by i u)
  unfolding paid_by
  paid_by-Keeps i none = Keeps-pure tt
  paid_by-Keeps i (some u) =
      search (user_rules, activate_subscription-Keeps, unfreeze-Keeps) depth 8

  paid_for-Keeps : (i : Invoice) (id : Option ℕ) → Keeps I (paid_for i id)
  unfolding paid_for
  paid_for-Keeps i none = Keeps-pure tt
  paid_for-Keeps i (some id) = search (user_rules, paid_by-Keeps)

  handle_invoice_payment_succeeded-Keeps :
      (i : Invoice) → Keeps I (handle_invoice_payment_succeeded i)
  unfolding handle_invoice_payment_succeeded
  handle_invoice_payment_succeeded-Keeps i = search (invoice_user-Keeps, paid_for-Keeps, Keeps-bind)

  freeze-Keeps : (u : User) → Keeps I (freeze u)
  unfolding freeze
  freeze-Keeps u = search write_rules

  failed_subscription-Keeps :
      (p : Platform) (b : Bool) (id : ℕ) (customer : Option Text) (t : Text)
      (s : Option Subscription)
      → Keeps I (failed_subscription p b id customer t s)
  unfolding failed_subscription past_due_subscription
  failed_subscription-Keeps p b id customer t none = search user_rules
  failed_subscription-Keeps p b id customer t (some s) = Keeps-pure false

  failed_payment-Keeps :
      (p : Platform) (i : Invoice) (u : User) (t : Option Text) → Keeps I (failed_payment p i u t)
  unfolding failed_payment
  failed_payment-Keeps p i u none = Keeps-pure false
  failed_payment-Keeps p i u (some t) =
      search (user_rules, failed_subscription-Keeps, freeze-Keeps) depth 8

  failed_by-Keeps : (p : Platform) (i : Invoice) (u : Option User) → Keeps I (failed_by p i u)
  unfolding failed_by
  failed_by-Keeps p i none = Keeps-pure tt
  failed_by-Keeps p i (some u) = search (user_rules, failed_payment-Keeps) depth 8

  failed_for-Keeps : (p : Platform) (i : Invoice) (id : Option ℕ) → Keeps I (failed_for p i id)
  unfolding failed_for
  failed_for-Keeps p i none = Keeps-pure tt
  failed_for-Keeps p i (some id) = search (user_rules, failed_by-Keeps)

  failed_with-Keeps :
      (p : Platform) (i : Invoice) (id : Option (Option ℕ)) → Keeps I (failed_with p i id)
  unfolding failed_with
  failed_with-Keeps p i none = Keeps-raise other_exception
  failed_with-Keeps p i (some id) = search (invoice_user-Keeps, failed_for-Keeps, Keeps-bind)

  handle_invoice_payment_failed-Keeps :
      (p : Platform) (i : Invoice) → Keeps I (handle_invoice_payment_failed p i)
  unfolding handle_invoice_payment_failed
  handle_invoice_payment_failed-Keeps p i = failed_with-Keeps p i i.customer_details

  mark_failed-Keeps : (e : Exn) → Keeps I (mark_failed e)
  unfolding mark_failed
  mark_failed-Keeps integrity_error = search write_rules
  mark_failed-Keeps e = rollback_on_db_error-Keeps e

  mark_event_as_processed-Keeps :
      (t : Text) (type : EventType) → Keeps I (mark_event_as_processed t type)
  unfolding mark_event_as_processed
  mark_event_as_processed-Keeps t type = search (write_rules, mark_failed-Keeps) depth 7

module _ {I : Db → Type 0} ⦃w : WebhookWrites I⦄ (p : Platform) (credits : ℕ) (now : DateTime) where
  dispatch-Keeps : (b : EventBody) → Keeps I (dispatch p credits now b)
  unfolding dispatch
  dispatch-Keeps (checkout c) = handle_checkout_session_completed-Keeps c
  dispatch-Keeps (subscription_created s) =
      handle_customer_subscription_created-Keeps p credits now s
  dispatch-Keeps (subscription_updated s) = handle_customer_subscription_updated-Keeps p s
  dispatch-Keeps (subscription_deleted s) = handle_customer_subscription_updated-Keeps p s
  dispatch-Keeps (payment_succeeded i) = handle_invoice_payment_succeeded-Keeps i
  dispatch-Keeps (payment_failed i) = handle_invoice_payment_failed-Keeps p i
  dispatch-Keeps (unhandled t) = Keeps-pure tt

  endpoint_error-Keeps : (e : Exn) → Keeps I (endpoint_error p credits now e)
  unfolding endpoint_error
  endpoint_error-Keeps (http status) = Keeps-raise (http status)
  endpoint_error-Keeps _ = search write_rules

  process-Keeps : (e : StripeEvent) → Keeps I (process p credits now e)
  unfolding process
  process-Keeps e =
      search (write_rules, dispatch-Keeps, mark_event_as_processed-Keeps, endpoint_error-Keeps)
        depth 7

  -- Whatever the event, and whatever fails on the way, the invariant is kept.
  pub stripe_webhook_endpoint-Keeps :
      (e : StripeEvent) → Keeps I (stripe_webhook_endpoint p credits now e)
  unfolding stripe_webhook_endpoint is_event_processed
  stripe_webhook_endpoint-Keeps e = search (write_rules, process-Keeps) depth 7
