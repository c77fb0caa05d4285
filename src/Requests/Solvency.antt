-- ===== src/Requests/Solvency.antt =====
-- Requests to use credits, and the sign of the balances.
use fastapi_auth_service.Prelude.{ℕ, Option, List}
use fastapi_auth_service.Prelude.Int.{ℤ}
use fastapi_auth_service.Db.Schema.{Text, Db, Description}
use fastapi_auth_service.Db.Session.{Exn}
use fastapi_auth_service.Credit.Solvency.{IsSolvent, use_credits-IsSolvent}
use fastapi_auth_service.Requests.{Context, use_up, run, serve}
use fastapi_auth_service.Requests.Invariant.{kept, done}

-- If no balance is negative, none is after a request to use credits, whatever the amount and
-- whichever calls of the database fail.
pub serve-IsSolvent :
    (x : Context) (faults : List (Option Exn)) (user : ℕ) (amount : ℤ) (reference : Option Text)
    (description : Option Description) (money : Option ℤ) (d : Db)
    → IsSolvent d
    → IsSolvent (
        serve
          (record {
            context = x;
            faults = faults;
            request = use_up user amount reference description money;
          })
          d)
unfolding serve run
serve-IsSolvent x faults user amount reference description money d h =
    kept IsSolvent _ _
      (done _ (use_credits-IsSolvent x.test x.now user amount reference description money)) h h
