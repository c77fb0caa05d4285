-- ===== src/Requests/Ledger.antt =====
-- The ledger of the credit service over any sequence of requests.
use fastapi_auth_service.Prelude.{List}
use fastapi_auth_service.Db.Schema.{Db}
use fastapi_auth_service.Db.Ensures.{Ensures-weaken}
use fastapi_auth_service.Credit.Ledger.{IsBalanced}
use fastapi_auth_service.Credit.Ledger.Service.{get_user_credit-Ensures, use_credits-Keeps}
use fastapi_auth_service.Credit.Ledger.Operations.{ledger_credit_writes}
use fastapi_auth_service.Webhook.Writes.Ledger.{ledger_webhook_writes}
use fastapi_auth_service.Requests.{Incoming, serve_all}
use fastapi_auth_service.Credit.Writes.{BalanceWrites}
use fastapi_auth_service.Requests.Invariant.{serve_all-Keeps}

instance ledger_balance_writes : BalanceWrites IsBalanced
ledger_balance_writes = record {
  gets_credit =
      λ now u. Ensures-weaken _ (get_user_credit-Ensures now u) (λ d h r. tt) (λ a d h q. tt);
  uses = use_credits-Keeps;
}

-- If every balance is the signed sum of its user's transactions and no user has two credit rows,
-- that is so after any sequence of requests to the credit service and the webhook endpoint,
-- whatever Stripe answers and whichever calls of the database fail.
pub serve_all-IsBalanced :
    (rs : List Incoming) (d : Db) → IsBalanced d → IsBalanced (serve_all rs d)
serve_all-IsBalanced rs d h = serve_all-Keeps IsBalanced rs d h
