-- ===== src/Webhook/Events.antt =====
-- What the handlers read of a Stripe event. A user id in an event is the number that it denotes, and
-- a timestamp that is absent or 0 is `none`.
use fastapi_auth_service.Prelude.{ℕ, Bool, Option}
use fastapi_auth_service.Db.Schema.{Text, Status, EventType}
use fastapi_auth_service.Db.Session.{Result}

-- `checkout.session.completed`
pub record CheckoutSession : Type 0 where
  pub user_id : Option ℕ
  pub customer : Option Text

-- `customer.subscription.*`; `price_id` is that of the first item.
pub record SubscriptionData : Type 0 where
  pub id : Text
  pub customer : Option Text
  pub status : Status
  pub price_id : Option Text
  pub user_id : Option ℕ
  pub trial_end : Option ℕ
  pub current_period_start : Option ℕ
  pub current_period_end : Option ℕ
  pub cancel_at_period_end : Bool
  pub canceled_at : Option ℕ
  pub payment_intent : Option Text
  pub setup_intent : Option Text
  pub default_payment_method : Option Text
  pub card_details_fingerprint : Option Text

pub data BillingReason : Type 0 where
  subscription_cycle subscription_create subscription_update : BillingReason
  other : Text → BillingReason

-- `invoice.*`; `customer_details` is `none` where the object has none, and holds the user id of the
-- metadata otherwise.
pub record Invoice : Type 0 where
  pub id : Text
  pub customer : Option Text
  pub subscription : Option Text
  pub customer_details : Option (Option ℕ)
  pub billing_reason : BillingReason

pub data EventBody : Type 0 where
  checkout : CheckoutSession → EventBody
  subscription_created subscription_updated subscription_deleted : SubscriptionData → EventBody
  payment_succeeded payment_failed : Invoice → EventBody
  unhandled : Text → EventBody

pub record StripeEvent : Type 0 where
  pub id : Text
  pub body : EventBody

abbrev pub event_type : EventBody → EventType
event_type (checkout c) = EventType.checkout_session_completed
event_type (subscription_created s) = EventType.customer_subscription_created
event_type (subscription_updated s) = EventType.customer_subscription_updated
event_type (subscription_deleted s) = EventType.customer_subscription_deleted
event_type (payment_succeeded i) = EventType.invoice_payment_succeeded
event_type (payment_failed i) = EventType.invoice_payment_failed
event_type (unhandled t) = EventType.other t

-- What the handlers take from outside the repository: the card fingerprints that Stripe gives for a
-- payment intent, a setup intent and a payment method (an error is a `StripeError`), and whether what
-- `Result.scalars().first()` returns can be awaited, as `get_or_create_subscription` does. It cannot
-- with SQLAlchemy's own sessions.
pub record Platform : Type 0 where
  pub intent_card : Text → Result (Option Text)
  pub setup_card : Text → Result (Option Text)
  pub method_card : Text → Result (Option Text)
  pub first_is_awaitable : Bool
