-- ===== src/Webhook/NoGrant.antt =====
-- `customer.subscription.created` where what `Result.scalars().first()` returns cannot be awaited, as
-- `get_or_create_subscription` (app/core/db_utils.py) does.
use fastapi_auth_service.Prelude.{
  ℕ, ◌≡◌, Bool, is_some, false, Option, none, some, List, Bool-cases, inl, inr,
}
use fastapi_auth_service.Db.Schema.{Text, DateTime, Db, User, CreditTransaction, EventType}
use fastapi_auth_service.Db.Tables.{set_user}
use fastapi_auth_service.Db.Session.{Exn, http, type_error, integrity_error, modify}
use fastapi_auth_service.Db.Ensures.{
  Ensures, Keeps, Anything, Ensures-bind, Ensures-if, Ensures-raise,
}
use fastapi_auth_service.Db.Keeps.{keeps_rules, Keeps-modify, Keeps-pure, Keeps-raise}
use fastapi_auth_service.Webhook.Events.{SubscriptionData, Platform, subscription_created}
use fastapi_auth_service.Webhook.Users.{
  rollback_on_db_error, resolve_user, user_of_customer, get_user, associate_customer,
  find_subscription, get_or_create_subscription,
}
use fastapi_auth_service.Webhook.Trials.{
  check_card, created_for, handle_customer_subscription_created,
}
use fastapi_auth_service.Webhook.Endpoint.{
  mark, is_processed, mark_failed, mark_event_as_processed, is_event_processed, dispatch,
  endpoint_error, process, stripe_webhook_endpoint,
}

-- The transactions on record are these.
abbrev pub Records : List CreditTransaction → Db → Type 0
Records ts d = d.transactions ≡ ts

module _ {ts : List CreditTransaction} where
  set_user-Keeps : (id : ℕ) (f : User → User) → Keeps (Records ts) (modify (set_user id f))
  unfolding set_user
  set_user-Keeps id f = Keeps-modify _ (λ d h. h)

  mark-Keeps : (id : Text) (type : EventType) → Keeps (Records ts) (modify (mark id type))
  mark-Keeps id type =
      Keeps-modify _
        (λ d h. elim (Bool-cases (is_processed id d)) [ inl e ↦ rw e h | inr e ↦ rw e h ])

  rollback_on_db_error-Keeps :
      {A : Type 0} (e : Exn) → Keeps (Records ts) (rollback_on_db_error {A = A} e)
  unfolding rollback_on_db_error
  rollback_on_db_error-Keeps e = search keeps_rules

  mark_failed-Keeps : (e : Exn) → Keeps (Records ts) (mark_failed e)
  unfolding mark_failed
  mark_failed-Keeps integrity_error = search keeps_rules
  mark_failed-Keeps e = rollback_on_db_error-Keeps e

  resolve_user-Keeps :
      (id : Option ℕ) (customer : Option Text) → Keeps (Records ts) (resolve_user id customer)
  unfolding resolve_user user_of_customer
  resolve_user-Keeps (some id) customer = search keeps_rules
  resolve_user-Keeps none customer = search keeps_rules

  associate_customer-Keeps :
      (u : Option User) (customer : Option Text)
      → Keeps (Records ts) (associate_customer u customer)
  unfolding associate_customer
  associate_customer-Keeps none customer = search keeps_rules
  associate_customer-Keeps (some u) customer = set_user-Keeps u.id _

  -- Nothing is returned.
  get_or_create_subscription-Ensures :
      (p : Platform) (b : Bool) (user : ℕ) (t : Text)
      → p.first_is_awaitable ≡ false
      → Ensures (Records ts) Anything (get_or_create_subscription p b user t) (λ _ _. ⊥)
  unfolding get_or_create_subscription find_subscription
  get_or_create_subscription-Ensures p b user t h =
      Ensures-bind {Q = λ _ _. Unit} _ _ (search keeps_rules) λ found.
        Ensures-if p.first_is_awaitable _ _ (λ e. absurd (cc (h, e)))
          (λ e. Ensures-raise type_error)

  module _ (p : Platform) (credits : ℕ) (now : DateTime) (h : p.first_is_awaitable ≡ false) where
    check_card-Keeps : (e : SubscriptionData) → Keeps (Records ts) (check_card p credits now e)
    unfolding check_card
    check_card-Keeps e = search keeps_rules

    created_for-Keeps :
        (e : SubscriptionData) (id : Option ℕ) → Keeps (Records ts) (created_for p credits now e id)
    unfolding created_for get_user
    created_for-Keeps e none = Keeps-pure tt
    created_for-Keeps e (some id) = Ensures-bind {Q = λ _ _. Unit} _ _ (search keeps_rules) λ user.
        Ensures-bind _ _ (associate_customer-Keeps user e.customer) λ _.
          Ensures-bind _ _ (check_card-Keeps e) λ _.
            Ensures-bind _ _ (get_or_create_subscription-Ensures p (is_some e.user_id) id e.id h)
              λ s. record { at = λ v t tc th r. absurd r }

    created-Keeps :
        (e : SubscriptionData)
        → Keeps (Records ts) (handle_customer_subscription_created p credits now e)
    unfolding handle_customer_subscription_created
    created-Keeps e = search (keeps_rules, resolve_user-Keeps, created_for-Keeps)

    dispatch-Keeps :
        (e : SubscriptionData)
        → Keeps (Records ts) (dispatch p credits now (subscription_created e))
    unfolding dispatch
    dispatch-Keeps e = created-Keeps e

    mark_event-Keeps :
        (id : Text) (type : EventType) → Keeps (Records ts) (mark_event_as_processed id type)
    unfolding mark_event_as_processed
    mark_event-Keeps id type = search (keeps_rules, mark-Keeps, mark_failed-Keeps) depth 7

    endpoint_error-Keeps : (e : Exn) → Keeps (Records ts) (endpoint_error p credits now e)
    unfolding endpoint_error
    endpoint_error-Keeps (http status) = Keeps-raise (http status)
    endpoint_error-Keeps e = search keeps_rules

    pub created_endpoint-Keeps :
        (id : Text) (e : SubscriptionData)
        → Keeps (Records ts) (
            stripe_webhook_endpoint p credits now
              (record { id = id; body = subscription_created e }))
    unfolding stripe_webhook_endpoint is_event_processed process
    created_endpoint-Keeps id e =
        search (keeps_rules, dispatch-Keeps, mark_event-Keeps, endpoint_error-Keeps) depth 12
