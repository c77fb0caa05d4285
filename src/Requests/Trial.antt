-- ===== src/Requests/Trial.antt =====
-- The free trial over any sequence of requests.
use fastapi_auth_service.Prelude.{List}
use fastapi_auth_service.Db.Schema.{Db}
use fastapi_auth_service.Trial.{IsGrantedOnce}
use fastapi_auth_service.Trial.Service.{
  trial_balance_writes, trial_credit_writes, trial_webhook_writes,
}
use fastapi_auth_service.Requests.{Incoming, serve_all}
use fastapi_auth_service.Requests.Invariant.{serve_all-Keeps}

-- If every user has at most one transaction that grants the trial's credits, and none while the
-- flag has_consumed_initial_trial is unset, that is so after any sequence of requests.
pub serve_all-IsGrantedOnce :
    (rs : List Incoming) (d : Db) → IsGrantedOnce d → IsGrantedOnce (serve_all rs d)
serve_all-IsGrantedOnce rs d h = serve_all-Keeps IsGrantedOnce rs d h
