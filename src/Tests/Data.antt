-- ===== src/Tests/Data.antt =====
-- A small database, a Stripe that confirms every payment, and a session of requests.
use fastapi_auth_service.Prelude.{Bool, true, false, none, some, List, [], ◌∷◌}
use fastapi_auth_service.Prelude.Int.{pos}
use fastapi_auth_service.Db.Schema.{
  DateTime, Db, User, UserCredit, CreditTransaction, TransactionType, Plan, Subscription, Status,
  AccountStatus, AuthType, EventType,
}
use fastapi_auth_service.Db.Session.{sqlalchemy_error, ok}
use fastapi_auth_service.Stripe.{StripeApi, IntentStatus}
use fastapi_auth_service.Webhook.Events.{SubscriptionData, Platform, subscription_created}
use fastapi_auth_service.Requests.{Context, Request, use_up, verify_payment, webhook, Incoming}

abbrev pub today : DateTime
today = record { year = 2025; month = 1; day = 31; time = 0 }

abbrev pub stripe : StripeApi
stripe = record {
  retrieve_intent = λ t. ok (some (record { status = IntentStatus.succeeded; amount = 900 }));
  retrieve_subscription = λ t. ok (
      some (record {
        status = Status.active;
        item_plan = some (900, 70);
        current_period_end = some 5;
        default_payment_method = some 80;
        customer = 90;
      }));
  retrieve_payment_method = λ t. ok (some (record { card_fingerprint = some 81 }));
  cancel = λ t. ok (some Status.canceled);
  modify_cancel_at_period_end = λ t. ok tt;
}

abbrev pub platform : Bool → Platform
platform awaitable = record {
  intent_card = λ t. ok (some 81);
  setup_card = λ t. ok (some 81);
  method_card = λ t. ok (some 81);
  first_is_awaitable = awaitable;
}

abbrev pub context : Context
context = record {
  api = stripe;
  platform = platform true;
  test = λ t. false;
  now = today;
  uuid = 1000;
  trial_credits = 1000;
}

abbrev pub unawaitable : Context
unawaitable = record context { platform = platform false }

abbrev pub anna : User
anna = record {
  id = 1;
  email = 11;
  hashed_password = some 12;
  google_id = none;
  auth_type = AuthType.password;
  is_admin = false;
  is_verified = true;
  stripe_customer_id = some 90;
  account_status = AccountStatus.active;
  has_consumed_initial_trial = false;
}

abbrev pub credit : UserCredit
credit = record { id = 2; user_id = 1; balance = pos 500; updated_at = today }

-- The payment 300 has been credited.
abbrev pub payment : CreditTransaction
payment = record {
  id = 3;
  user_id = 1;
  user_credit_id = 2;
  amount = pos 500;
  transaction_type = TransactionType.one_time_purchase;
  reference_id = some 300;
  description = none;
  plan_id = none;
  subscription_id = none;
  created_at = today;
}

abbrev pub basic : Plan
basic = record {
  id = 4;
  name = 40;
  credit_amount = pos 10000;
  price = pos 900;
  is_active = true;
  stripe_price_id = some 70;
  is_limited_free = false;
}

abbrev pub premium : Plan
premium = record basic { id = 5; price = pos 1900 }

abbrev pub monthly : Subscription
monthly = record {
  id = 6;
  user_id = 1;
  plan_id = some 4;
  renewal_date = some today;
  is_active = true;
  auto_renew = true;
  last_renewal_date = none;
  status = Status.active;
  stripe_subscription_id = some 60;
  stripe_customer_id = some 90;
  stripe_price_id = some 70;
  trial_end_date = none;
  current_period_start = none;
  current_period_end = none;
  cancel_at_period_end = false;
  canceled_at = none;
}

-- The event 7 has been processed.
abbrev pub database : Db
database = record {
  users = anna ∷ [];
  verification_tokens = [];
  reset_tokens = [];
  email_change_requests = [];
  credits = credit ∷ [];
  transactions = payment ∷ [];
  plans = premium ∷ basic ∷ [];
  subscriptions = monthly ∷ [];
  processed_events =
      (record { stripe_event_id = 7; event_type = EventType.invoice_payment_failed }) ∷ [];
  next_id = 8;
}

-- A trial's start, of the local subscription that is there already.
abbrev pub trial : SubscriptionData
trial = record {
  id = 60;
  customer = some 90;
  status = Status.trialing;
  price_id = some 70;
  user_id = none;
  trial_end = some 5;
  current_period_start = some 1;
  current_period_end = some 5;
  cancel_at_period_end = false;
  canceled_at = none;
  payment_intent = none;
  setup_intent = none;
  default_payment_method = none;
  card_details_fingerprint = some 81;
}

abbrev pub incoming : Request → Incoming
incoming r = record { context = context; faults = []; request = r }

-- The trial starts twice, credits are used, and a payment is verified, of which one call fails.
abbrev pub requests : List Incoming
requests =
    incoming (webhook (record { id = 100; body = subscription_created trial }))
    ∷ incoming (webhook (record { id = 101; body = subscription_created trial }))
    ∷ incoming (use_up 1 (pos 700) none none none)
    ∷ (record {
      context = context;
      faults = none ∷ none ∷ some sqlalchemy_error ∷ [];
      request = verify_payment 1 301 false none;
    })
    ∷ incoming (verify_payment 1 301 false none)
    ∷ []
