-- ===== src/Requests.antt =====
-- The operations of the credit service and the webhook endpoint as requests, each run on a session of
-- its own (`get_db` of app/core/database.py) of a shared database.
pub mod Invariant
pub mod Ledger
pub mod Trial
pub mod History
pub mod Repeats
pub mod Errors
pub mod Solvency
pub mod Single
pub mod NoGrant
use fastapi_auth_service.Prelude.{ℕ, Bool, Option, none, List, [], ◌∷◌}
use fastapi_auth_service.Prelude.Int.{ℤ}
use fastapi_auth_service.Db.Schema.{Text, DateTime, Db, Status, TransactionType, Description}
use fastapi_auth_service.Db.Session.{Exn, Exec, Session, pure, ◌>>=◌, ◌>>◌}
use fastapi_auth_service.Stripe.{StripeApi}
use fastapi_auth_service.Credit.Account.{get_balance, add_credits, use_credits}
use fastapi_auth_service.Credit.Purchase.{purchase_one_time_credits, purchase_plan}
use fastapi_auth_service.Credit.Verified.{
  verify_and_process_one_time_payment, verify_and_process_subscription,
}
use fastapi_auth_service.Credit.Subscriptions.{
  renew_subscription, update_subscription_auto_renew, update_subscription_status,
  cancel_user_subscription,
}
use fastapi_auth_service.Webhook.Events.{Platform, StripeEvent}
use fastapi_auth_service.Webhook.Endpoint.{stripe_webhook_endpoint}

-- What a request finds outside the database: Stripe's answers, the clock, the next random
-- reference, and the setting `FREE_TRIAL_CREDITS`.
pub record Context : Type 0 where
  pub api : StripeApi
  pub platform : Platform
  pub test : Text → Bool
  pub now : DateTime
  pub uuid : Text
  pub trial_credits : ℕ

pub data Request : Type 0 where
  balance : ℕ → Request
  add : ℕ → ℤ → Option Text → Option Description → Request
  use_up : ℕ → ℤ → Option Text → Option Description → Option ℤ → Request
  one_time : ℕ → ℤ → ℤ → Option Text → Option Description → Bool → Request
  plan : ℕ → ℕ → Option Text → Option Description → Bool → Option Text → Option ℤ → Request
  verify_payment : ℕ → Text → Bool → Option ℤ → Request
  verify_subscription : ℕ → Text → Bool → Option ℤ → Request
  renew : ℕ → Request
  auto_renew : ℕ → Bool → Request
  stripe_status : Text → Status → Request
  cancel : ℕ → Option ℕ → Bool → Bool → Request
  webhook : StripeEvent → Request

unfoldable pub run : Context → Request → Exec (Unit {0})
run c (balance user) = get_balance c.now user >> pure tt
run c (add user amount reference description) =
    add_credits c.test c.now user amount reference description TransactionType.credit_added none
      none none
    >> pure tt
run c (use_up user amount reference description money) =
    use_credits c.test c.now user amount reference description money >> pure tt
run c (one_time user amount price reference description mail) =
    purchase_one_time_credits c.test c.now c.uuid user amount price reference description mail
    >> pure tt
run c (plan user key reference description mail stripe_id amount) =
    purchase_plan c.test c.now c.uuid user key reference description mail stripe_id amount
    >> pure tt
run c (verify_payment user t mail amount) =
    verify_and_process_one_time_payment c.api c.test c.now c.uuid user t mail amount >> pure tt
run c (verify_subscription user t mail amount) =
    verify_and_process_subscription c.api c.test c.now c.uuid user t mail amount >> pure tt
run c (renew id) = renew_subscription c.api c.test c.now c.uuid id >> pure tt
run c (auto_renew id b) = update_subscription_auto_renew c.api id b >> pure tt
run c (stripe_status t status) = update_subscription_status t status >> pure tt
run c (cancel id user in_stripe mail) =
    cancel_user_subscription c.api id user in_stripe mail >> pure tt
run c (webhook e) = stripe_webhook_endpoint c.platform c.trial_credits c.now e >> pure tt

-- A request, what it finds, and the outcomes of its calls of the database.
pub record Incoming : Type 0 where
  pub context : Context
  pub faults : List (Option Exn)
  pub request : Request

abbrev pub session_of : Incoming → Db → Session
session_of r d = record { committed = d; current = d; faults = r.faults; outbox = [] }

-- The database after the request: `get_db` closes its session, which drops what is not committed.
unfoldable pub serve : Incoming → Db → Db
unfolding run
serve r d = let (result, s) = run r.context r.request (session_of r d) in s.committed

unfoldable pub serve_all : List Incoming → Db → Db
unfolding serve
serve_all [] d = d
serve_all (r ∷ rs) d = serve_all rs (serve r d)
