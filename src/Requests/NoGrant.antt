-- ===== src/Requests/NoGrant.antt =====
-- A subscription that Stripe has created, where `Result.scalars().first()` cannot be awaited.
use fastapi_auth_service.Prelude.{◌≡◌, refl, false, Option, List}
use fastapi_auth_service.Db.Schema.{Text, Db}
use fastapi_auth_service.Db.Session.{Exn}
use fastapi_auth_service.Webhook.Events.{SubscriptionData, subscription_created}
use fastapi_auth_service.Webhook.NoGrant.{Records, created_endpoint-Keeps}
use fastapi_auth_service.Requests.{Context, webhook, run, serve}
use fastapi_auth_service.Requests.Invariant.{kept, done}

-- Where what Result.scalars().first() returns cannot be awaited, the event
-- customer.subscription.created records no transaction.
pub serve-created :
    (x : Context) (faults : List (Option Exn)) (id : Text) (e : SubscriptionData) (d : Db)
    → x.platform.first_is_awaitable ≡ false
    → (serve
        (record {
          context = x;
          faults = faults;
          request = webhook (record { id = id; body = subscription_created e });
        })
        d).transactions
      ≡ d.transactions
unfolding serve run
serve-created x faults id e d h =
    kept (Records d.transactions) _ _
      (done _ (created_endpoint-Keeps x.platform x.trial_credits x.now h id e)) refl refl
