-- ===== src/Webhook/Writes.antt =====
-- The writes of the webhook handlers (app/services/webhook_service.py), as conditions on a database
-- invariant; the modules below use them.
pub mod Users
pub mod Trials
pub mod Endpoint
pub mod Ledger
use fastapi_auth_service.Prelude.{
  ℕ, ◌≡◌, refl, sym, ◌∙◌, Bool, true, false, Option, none, some, List, if◌then◌else◌, Bool-cases,
  inl, inr,
}
use fastapi_auth_service.Db.Schema.{
  Text, DateTime, Db, User, Subscription, Status, AccountStatus, EventType,
}
use fastapi_auth_service.Db.Tables.{
  set_account_status, set_user, set_subscription, add_subscription, user_by_id,
}
use fastapi_auth_service.Db.Session.{
  Exn, http, integrity_error, sqlalchemy_error, multiple_results, insufficient_credits, value_error,
  type_error, other_exception, Exec, modify, query, pure,
}
use fastapi_auth_service.Db.Ensures.{
  Ensures, Keeps, Anything, Ensures-bind, Ensures-if, Ensures-query, Ensures-pure, Ensures-weaken,
}
use fastapi_auth_service.Db.Keeps.{
  keeps_rules, Keeps-modify, Keeps-bind, Keeps-try, Keeps-if, Keeps-pure, Keeps-raise,
}
use fastapi_auth_service.Webhook.Events.{
  SubscriptionData, Platform, CheckoutSession, Invoice, StripeEvent, EventBody, checkout,
  subscription_created, subscription_updated, subscription_deleted, payment_succeeded,
  payment_failed, unhandled,
}
use fastapi_auth_service.Webhook.Users.{
  rollback_on_db_error, commit_event, user_of_customer, resolve_user, get_user, keep_customer,
  associate_customer, found_or_new, find_subscription, get_or_create_subscription, swallow_db_error,
  associate_and_commit, associate_session_user, handle_checkout_session_completed,
}
use fastapi_auth_service.Webhook.Trials.{
  grant_trial, trial_of_user, trial_step, created_trial, check_card, merge, created_for,
  handle_customer_subscription_created, is_trialing,
}
use fastapi_auth_service.Webhook.Updates.{
  publish_change, change_account_status, finish_update, created_on_update, subscription_to_update,
  updated_for, updated_user, handle_customer_subscription_updated, account_status_for,
}
use fastapi_auth_service.Webhook.Invoices.{
  invoice_user, metadata_user, activate_found, activate_subscription, unfreeze, paid_by, paid_for,
  handle_invoice_payment_succeeded, freeze, past_due_subscription, failed_subscription,
  failed_payment, failed_by, failed_for, failed_with, handle_invoice_payment_failed,
}
use fastapi_auth_service.Webhook.Endpoint.{
  is_event_processed, mark, mark_failed, mark_event_as_processed, dispatch, endpoint_error, process,
  stripe_webhook_endpoint,
}

-- The user is the session's, and has not had a trial.
abbrev pub HasNoTrial : User → Db → Type 0
HasNoTrial u d = (user_by_id u.id d ≡ some u) × (u.has_consumed_initial_trial ≡ false)

pub record WebhookWrites (I : Db → Type 0) : Type 0 where
  pub subscription :
      (id : ℕ) (f : Subscription → Subscription) (d : Db) → I d → I (set_subscription id f d)
  pub new_subscription : (s : Subscription) (d : Db) → I d → I (add_subscription s d)
  pub customer :
      (id : ℕ) (customer : Option Text) (d : Db) → I d → I (set_user id (keep_customer customer) d)
  pub status : (id : ℕ) (status : AccountStatus) (d : Db) → I d → I (set_account_status id status d)
  pub processed : (event_id : Text) (type : EventType) (d : Db) → I d → I (mark event_id type d)
  pub trial :
      (p : Platform) (credits : ℕ) (now : DateTime) (u : User) (e : SubscriptionData)
      → Ensures I (HasNoTrial u) (grant_trial p credits now u e) (λ _ _. Unit)
