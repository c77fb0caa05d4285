-- ===== src/Requests/Invariant.antt =====
-- A database invariant over sequences of requests.
use fastapi_auth_service.Prelude.{ℕ, refl, Bool, false, none, List, [], ◌∷◌}
use fastapi_auth_service.Db.Schema.{DateTime, Db, TransactionType}
use fastapi_auth_service.Db.Session.{Exec, pure, ◌>>◌, Session, Result, ok, err}
use fastapi_auth_service.Db.Ensures.{Keeps, Post, Committed}
use fastapi_auth_service.Db.Keeps.{Keeps-bind, Keeps-pure}
use fastapi_auth_service.Credit.Account.{get_balance}
use fastapi_auth_service.Credit.Writes.{CreditWrites, BalanceWrites}
use fastapi_auth_service.Credit.Writes.Purchases.{
  purchase_one_time_credits-Keeps, purchase_plan-Keeps,
}
use fastapi_auth_service.Credit.Writes.Verified.{
  verify_and_process_one_time_payment-Keeps, verify_and_process_subscription-Keeps,
}
use fastapi_auth_service.Credit.Writes.Subscriptions.{
  renew_subscription-Keeps, update_subscription_auto_renew-Keeps, update_subscription_status-Keeps,
  cancel_user_subscription-Keeps,
}
use fastapi_auth_service.Webhook.Writes.{WebhookWrites}
use fastapi_auth_service.Webhook.Writes.Endpoint.{stripe_webhook_endpoint-Keeps}
use fastapi_auth_service.Requests.{
  Context, Request, balance, add, use_up, one_time, plan, verify_payment, verify_subscription,
  renew, auto_renew, stripe_status, cancel, webhook, run, session_of, Incoming, serve, serve_all,
}

pub done : {I : Db → Type 0} {A : Type 0} (m : Exec A) → Keeps I m → Keeps I (m >> pure (tt {0}))
done m h = Keeps-bind m _ h (λ _. Keeps-pure tt)

module _ {I : Db → Type 0} ⦃b : BalanceWrites I⦄ ⦃c : CreditWrites I⦄ ⦃w : WebhookWrites I⦄ where
  get_balance-Keeps : (now : DateTime) (user : ℕ) → Keeps I (get_balance now user)
  unfolding get_balance
  get_balance-Keeps now user = Keeps-bind _ _ (b.gets_credit now user) (λ _. Keeps-pure _)

  pub run-Keeps : (x : Context) (r : Request) → Keeps I (run x r)
  unfolding run
  run-Keeps x (balance user) = done _ (get_balance-Keeps x.now user)
  run-Keeps x (add user amount reference description) = done _ (
      c.adds x.test x.now user amount reference description TransactionType.credit_added none none
        none tt)
  run-Keeps x (use_up user amount reference description money) =
      done _ (b.uses x.test x.now user amount reference description money)
  run-Keeps x (one_time user amount price reference description mail) = done _ (
      purchase_one_time_credits-Keeps x.test x.now x.uuid user amount price reference description
        mail)
  run-Keeps x (plan user key reference description mail stripe_id amount) =
      done _ (
        purchase_plan-Keeps x.test x.now x.uuid user key reference description mail stripe_id
          amount)
  run-Keeps x (verify_payment user t mail amount) =
      done _
        (verify_and_process_one_time_payment-Keeps x.api x.test x.now x.uuid user t mail amount)
  run-Keeps x (verify_subscription user t mail amount) =
      done _ (verify_and_process_subscription-Keeps x.api x.test x.now x.uuid user t mail amount)
  run-Keeps x (renew id) = done _ (renew_subscription-Keeps x.api x.test x.now x.uuid id)
  run-Keeps x (auto_renew id on) = done _ (update_subscription_auto_renew-Keeps x.api id on)
  run-Keeps x (stripe_status t status) = done _ (update_subscription_status-Keeps t status)
  run-Keeps x (cancel id user in_stripe mail) =
      done _ (cancel_user_subscription-Keeps x.api id user in_stripe mail)
  run-Keeps x (webhook e) =
      done _ (stripe_webhook_endpoint-Keeps x.platform x.trial_credits x.now e)

pub committed :
    (I : Db → Type 0) (v : Bool) {A : Type 0} (r : Result A × Session)
    → Post I v (λ _ _. Unit {0}) r
    → Committed I v r.1.committed
committed I v (ok a, s) h = h.0
committed I v (err e, s) h = h.0

-- An invariant that `m` keeps, of what `m` commits.
pub kept :
    (I : Db → Type 0) {A : Type 0} (m : Exec A) (s : Session)
    → Keeps I m
    → I s.committed
    → I s.current
    → I (m s).1.committed
kept I m s k h c = (committed I false (m s) (k.at false s (h, refl) c tt)).0

module _ (I : Db → Type 0) ⦃b : BalanceWrites I⦄ ⦃c : CreditWrites I⦄ ⦃w : WebhookWrites I⦄ where
  serve-Committed : (v : Bool) (r : Incoming) (d : Db) → Committed I v d → Committed I v (serve r d)
  unfolding serve
  serve-Committed v r d h =
      committed I v (run r.context r.request (session_of r d))
        ((run-Keeps r.context r.request).at v (session_of r d) h h.0 tt)

  serve_all-Committed :
      (v : Bool) (rs : List Incoming) (d : Db) → Committed I v d → Committed I v (serve_all rs d)
  unfolding serve_all
  serve_all-Committed v [] d h = h
  serve_all-Committed v (r ∷ rs) d h =
      serve_all-Committed v rs (serve r d) (serve-Committed v r d h)

  pub serve_all-Keeps : (rs : List Incoming) (d : Db) → I d → I (serve_all rs d)
  serve_all-Keeps rs d h = (serve_all-Committed false rs d (h, refl)).0
