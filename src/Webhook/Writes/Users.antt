-- ===== src/Webhook/Writes/Users.antt =====
-- The steps that the webhook handlers share, and a database invariant.
use fastapi_auth_service.Prelude.{ℕ, Bool, Option, none, some}
use fastapi_auth_service.Db.Schema.{Text, Db, User, Subscription, AccountStatus, EventType}
use fastapi_auth_service.Db.Tables.{
  set_account_status, set_user, set_subscription, add_subscription,
}
use fastapi_auth_service.Db.Session.{Exn, modify}
use fastapi_auth_service.Db.Ensures.{Keeps}
use fastapi_auth_service.Db.Keeps.{
  keeps_rules, Keeps-modify, Keeps-bind, Keeps-try, Keeps-if, Keeps-pure, Keeps-raise,
}
use fastapi_auth_service.Webhook.Events.{Platform, CheckoutSession}
use fastapi_auth_service.Webhook.Users.{
  rollback_on_db_error, commit_event, user_of_customer, resolve_user, get_user, keep_customer,
  associate_customer, associate_given, found_or_new, find_subscription, get_or_create_subscription,
  swallow_db_error, associate_and_commit, associate_session_user, handle_checkout_session_completed,
}
use fastapi_auth_service.Webhook.Endpoint.{mark}
use fastapi_auth_service.Webhook.Writes.{WebhookWrites}

module _ {I : Db → Type 0} ⦃w : WebhookWrites I⦄ where
  pub set_subscription-Keeps :
      (id : ℕ) (f : Subscription → Subscription) → Keeps I (modify (set_subscription id f))
  set_subscription-Keeps id f = Keeps-modify _ (w.subscription id f)

  pub add_subscription-Keeps : (s : Subscription) → Keeps I (modify (add_subscription s))
  add_subscription-Keeps s = Keeps-modify _ (w.new_subscription s)

  pub keep_customer-Keeps :
      (id : ℕ) (customer : Option Text) → Keeps I (modify (set_user id (keep_customer customer)))
  keep_customer-Keeps id customer = Keeps-modify _ (w.customer id customer)

  pub set_status-Keeps :
      (id : ℕ) (status : AccountStatus) → Keeps I (modify (set_account_status id status))
  set_status-Keeps id status = Keeps-modify _ (w.status id status)

  pub mark-Keeps : (event_id : Text) (type : EventType) → Keeps I (modify (mark event_id type))
  mark-Keeps event_id type = Keeps-modify _ (w.processed event_id type)

pub ruleset write_rules = (
  keeps_rules, set_subscription-Keeps, add_subscription-Keeps, keep_customer-Keeps,
  set_status-Keeps, mark-Keeps,
)

module _ {I : Db → Type 0} ⦃w : WebhookWrites I⦄ where
  pub rollback_on_db_error-Keeps : {A : Type 0} (e : Exn) → Keeps I (rollback_on_db_error {A = A} e)
  unfolding rollback_on_db_error
  rollback_on_db_error-Keeps e = search write_rules

  pub commit_event-Keeps : Keeps I commit_event
  unfolding commit_event
  commit_event-Keeps = search (write_rules, rollback_on_db_error-Keeps)

  pub resolve_user-Keeps :
      (id : Option ℕ) (customer : Option Text) → Keeps I (resolve_user id customer)
  unfolding resolve_user user_of_customer
  resolve_user-Keeps (some id) customer = search write_rules
  resolve_user-Keeps none customer = search write_rules

  pub get_user-Keeps : (id : ℕ) → Keeps I (get_user id)
  unfolding get_user
  get_user-Keeps id = search write_rules

  pub associate_customer-Keeps :
      (u : Option User) (customer : Option Text) → Keeps I (associate_customer u customer)
  unfolding associate_customer
  associate_customer-Keeps none customer = search write_rules
  associate_customer-Keeps (some u) customer = search write_rules

  pub associate_given-Keeps :
      (u : Option User) (customer : Option Text) → Keeps I (associate_given u customer)
  unfolding associate_given
  associate_given-Keeps u customer = search (write_rules, associate_customer-Keeps)

  pub find_subscription-Keeps : (t : Text) → Keeps I (find_subscription t)
  unfolding find_subscription
  find_subscription-Keeps t = search write_rules

  pub found_or_new-Keeps :
      (b : Bool) (user_id : ℕ) (t : Text) (s : Option Subscription)
      → Keeps I (found_or_new b user_id t s)
  unfolding found_or_new
  found_or_new-Keeps b user_id t none = search write_rules
  found_or_new-Keeps b user_id t (some s) = search write_rules

  pub get_or_create_subscription-Keeps :
      (p : Platform) (b : Bool) (user_id : ℕ) (t : Text)
      → Keeps I (get_or_create_subscription p b user_id t)
  unfolding get_or_create_subscription
  get_or_create_subscription-Keeps p b user_id t =
      search (write_rules, find_subscription-Keeps, found_or_new-Keeps)

  pub swallow_db_error-Keeps : (e : Exn) → Keeps I (swallow_db_error e)
  unfolding swallow_db_error
  swallow_db_error-Keeps e = search write_rules

  pub associate_and_commit-Keeps :
      (u : Option User) (customer : Option Text) → Keeps I (associate_and_commit u customer)
  unfolding associate_and_commit
  associate_and_commit-Keeps none customer = search write_rules
  associate_and_commit-Keeps (some u) customer = search (write_rules, swallow_db_error-Keeps)

  pub associate_session_user-Keeps :
      (id : Option ℕ) (customer : Option Text) → Keeps I (associate_session_user id customer)
  unfolding associate_session_user
  associate_session_user-Keeps none customer = search write_rules
  associate_session_user-Keeps (some id) customer = search (write_rules, associate_and_commit-Keeps)

pub ruleset user_rules = (
  write_rules, rollback_on_db_error-Keeps, commit_event-Keeps, resolve_user-Keeps, get_user-Keeps,
  associate_customer-Keeps, associate_given-Keeps, find_subscription-Keeps,
  get_or_create_subscription-Keeps,
)

module _ {I : Db → Type 0} ⦃w : WebhookWrites I⦄ where
  pub handle_checkout_session_completed-Keeps :
      (c : CheckoutSession) → Keeps I (handle_checkout_session_completed c)
  unfolding handle_checkout_session_completed
  handle_checkout_session_completed-Keeps c = associate_session_user-Keeps c.user_id c.customer
