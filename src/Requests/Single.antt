-- ===== src/Requests/Single.antt =====
-- Purchases of plans, and the active subscriptions of their users.
use fastapi_auth_service.Prelude.{ℕ, Bool, Option, List}
use fastapi_auth_service.Prelude.Int.{ℤ}
use fastapi_auth_service.Db.Schema.{Text, Db, Description}
use fastapi_auth_service.Db.Session.{Exn}
use fastapi_auth_service.Credit.Single.{IsSingle}
use fastapi_auth_service.Credit.Single.Purchase.{purchase_plan-IsSingle}
use fastapi_auth_service.Requests.{Context, plan, run, serve}
use fastapi_auth_service.Requests.Invariant.{kept, done}

-- If no user has two active subscriptions, none has after a purchase of a plan, whichever calls of
-- the database fail.
pub serve-IsSingle :
    (x : Context) (faults : List (Option Exn)) (user key : ℕ) (reference : Option Text)
    (description : Option Description) (mail : Bool) (stripe_id : Option Text) (amount : Option ℤ)
    (d : Db)
    → IsSingle d
    → IsSingle (
        serve
          (record {
            context = x;
            faults = faults;
            request = plan user key reference description mail stripe_id amount;
          })
          d)
unfolding serve run
serve-IsSingle x faults user key reference description mail stripe_id amount d h =
    kept IsSingle _ _
      (done _ (
        purchase_plan-IsSingle x.test x.now x.uuid user key reference description mail stripe_id
          amount))
      h h
