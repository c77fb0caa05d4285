-- ===== src/Tests.antt =====
-- Concrete runs, and the theorems at concrete arguments.
pub mod Data
mod Accounts
mod Database
use fastapi_auth_service.Prelude.{
  ◌||◌, ℕ, ◌≡◌, refl, true, false, Option, none, some, List, [], ◌∷◌, ◌==◌, map, arith,
  if◌then◌else◌, ◌≤◌,
}
use fastapi_auth_service.Prelude.Int.{ltb_ℤ, leb_ℤ, ℤ, pos, ◌+ℤ◌, ◌-ℤ◌}
use fastapi_auth_service.Db.Schema.{TransactionType, truthy, constraints}
use fastapi_auth_service.Db.Tables.{set_user, set_subscription, set_account_status}
use fastapi_auth_service.Db.Session.{sqlalchemy_error, http, ok, err, fresh, after, ◌>>=◌}
use fastapi_auth_service.Credit.Account.{create_transaction_response, add_credits, use_credits}
use fastapi_auth_service.Credit.Verified.{verify_and_process_one_time_payment}
use fastapi_auth_service.Credit.Ledger.{IsBalanced}
use fastapi_auth_service.Credit.Answers.{told}
use fastapi_auth_service.Credit.Spending.{spent, added, use_credits-fresh, add_credits-fresh}
use fastapi_auth_service.Credit.Solvency.{IsSolvent}
use fastapi_auth_service.Credit.RoundTrip.{balances, use_credits-add_credits}
use fastapi_auth_service.Credit.Single.{IsSingle}
use fastapi_auth_service.Requests.Single.{serve-IsSingle}
use fastapi_auth_service.Credit.Renewal.{calculate_renewal_date, days_in_month}
use fastapi_auth_service.Credit.Renewal.Bounds.{IsDate, month_later, calculate_renewal_date-next}
use fastapi_auth_service.Credit.Plans.{find_matching_plan}
use fastapi_auth_service.Credit.Plans.Order.{Cheapest, find_matching_plan-Cheapest}
use fastapi_auth_service.Credit.Subscriptions.{cancel_user_subscription, cancelled}
use fastapi_auth_service.Credit.Subscriptions.Cancel.{
  cancellation, cancel_row, cancel_user_subscription-fresh,
}
use fastapi_auth_service.Trial.{IsGrantedOnce}
use fastapi_auth_service.Webhook.Events.{subscription_created}
use fastapi_auth_service.Webhook.Users.{get_card_fingerprint}
use fastapi_auth_service.Webhook.Trials.{handle_customer_subscription_created}
use fastapi_auth_service.Webhook.Endpoint.{stripe_webhook_endpoint, already_processed}
use fastapi_auth_service.Requests.{
  serve_all, serve, run, use_up, plan, verify_payment, verify_subscription, webhook,
}
use fastapi_auth_service.Requests.Ledger.{serve_all-IsBalanced}
use fastapi_auth_service.Requests.Trial.{serve_all-IsGrantedOnce}
use fastapi_auth_service.Requests.History.{IsLater, serve_all-IsLater}
use fastapi_auth_service.Requests.Repeats.{
  serve-verify_payment, serve-verify_subscription, endpoint-processed,
}
use fastapi_auth_service.Db.OnlyHttp.{is_http_or}
use fastapi_auth_service.Requests.Errors.{run-is_http}
use fastapi_auth_service.Requests.Solvency.{serve-IsSolvent}
use fastapi_auth_service.Requests.NoGrant.{serve-created}
use fastapi_auth_service.Tests.Data.{
  today, stripe, context, unawaitable, database, anna, credit, monthly, basic, trial, requests,
}

-- The trial's credits come once, the interrupted payment not at all, and its repetition once.
requests-balance : map (λ c. c.balance) (serve_all requests database).credits ≡ pos 1700 ∷ []
unfolding serve_all ◌>>=◌ verify_and_process_one_time_payment use_credits stripe_webhook_endpoint
    set_user set_subscription constraints set_account_status ◌+ℤ◌ create_transaction_response ◌-ℤ◌
requests-balance = refl

requests-transactions :
    map (λ t. t.amount) (serve_all requests database).transactions
    ≡ pos 500 ∷ pos 1000 ∷ pos 700 ∷ pos 900 ∷ []
unfolding serve_all ◌>>=◌ verify_and_process_one_time_payment use_credits stripe_webhook_endpoint
    set_user set_subscription constraints set_account_status ◌+ℤ◌ create_transaction_response
requests-transactions = refl

requests-events :
    map (λ e. e.stripe_event_id) (serve_all requests database).processed_events ≡ 7 ∷ 100 ∷ 101 ∷ []
unfolding serve_all ◌>>=◌ verify_and_process_one_time_payment use_credits stripe_webhook_endpoint
    set_user set_subscription constraints set_account_status ◌+ℤ◌ create_transaction_response
requests-events = refl

database-IsBalanced : IsBalanced database
database-IsBalanced = record { for_user = λ u. refl; one_row = λ u. ground arith }

database-IsGrantedOnce : IsGrantedOnce database
database-IsGrantedOnce = record { for_user = λ u. ground arith }

database-constraints : constraints database ≡ true
unfolding constraints
database-constraints = refl

today-IsDate : IsDate today
unfolding days_in_month
today-IsDate = record {
  year_min = omega arith;
  year_max = omega arith;
  month_min = omega arith;
  month_max = omega arith;
  day_min = omega arith;
  day_max = omega arith;
}

serve_all-IsBalanced_example : IsBalanced (serve_all requests database)
serve_all-IsBalanced_example = serve_all-IsBalanced requests database database-IsBalanced

serve_all-IsGrantedOnce_example : IsGrantedOnce (serve_all requests database)
serve_all-IsGrantedOnce_example = serve_all-IsGrantedOnce requests database database-IsGrantedOnce

serve_all-IsLater_example : IsLater database (serve_all requests database)
serve_all-IsLater_example = serve_all-IsLater requests database

serve-verify_payment_example :
    serve
      (record {
        context = context;
        faults = none ∷ some sqlalchemy_error ∷ [];
        request = verify_payment 1 300 true none;
      })
      (serve_all requests database)
    ≡ serve_all requests database
serve-verify_payment_example =
    serve-verify_payment 300 requests database refl context (none ∷ some sqlalchemy_error ∷ []) 1
      true none

serve-verify_subscription_example :
    serve
      (record { context = context; faults = []; request = verify_subscription 1 300 true none })
      (serve_all requests database)
    ≡ serve_all requests database
serve-verify_subscription_example =
    serve-verify_subscription 300 requests database refl context [] 1 true none

endpoint-processed_example :
    stripe_webhook_endpoint context.platform 1000 today
      (record { id = 7; body = subscription_created trial })
      (fresh (serve_all requests database))
    ≡ (ok already_processed, fresh (serve_all requests database))
endpoint-processed_example =
    endpoint-processed requests database (record { id = 7; body = subscription_created trial })
      context refl

serve-IsSolvent_example : IsSolvent (
    serve
      (record { context = context; faults = []; request = use_up 1 (pos 501) none none none })
      database)
serve-IsSolvent_example = serve-IsSolvent context [] 1 (pos 501) none none none database refl

use_credits-fresh_example :
    (told (use_credits context.test today 1 (pos 200) none none none (fresh database)).0 ≡ (
      if ltb_ℤ (pos 500) (pos 200) || leb_ℤ (pos 200) (pos 0)
      then err (http 500)
      else ok (8, pos 200, pos 500 -ℤ pos 200)))
    × ((use_credits context.test today 1 (pos 200) none none none (fresh database)).1
        ≡ fresh (
            if ltb_ℤ (pos 500) (pos 200)
            then database
            else spent context.test today 1 (pos 200) none none none credit database))
use_credits-fresh_example =
    use_credits-fresh context.test today 1 (pos 200) none none none database credit refl
      database-constraints

add_credits-fresh_example :
    (told
        (add_credits context.test today 1
          (pos 200)
          none
          none
          TransactionType.credit_added
          none
          none
          none
          (fresh database)).0
      ≡ (if leb_ℤ (pos 200) (pos 0) then err (http 500) else ok (8, pos 200, pos 500 +ℤ pos 200)))
    × ((add_credits context.test today 1
          (pos 200)
          none
          none
          TransactionType.credit_added
          none
          none
          none
          (fresh database)).1
        ≡ fresh (
            added context.test today 1
              (pos 200)
              none
              none
              TransactionType.credit_added
              none
              none
              none
              credit
              database))
add_credits-fresh_example =
    add_credits-fresh context.test today 1 (pos 200) none none TransactionType.credit_added none
      none none database credit refl database-constraints

run-is_http_example :
    is_http_or true (run context (use_up 1 (pos 501) none none none) (fresh database)).0 ≡ true
run-is_http_example = run-is_http context (use_up 1 (pos 501) none none none) (fresh database) refl

calculate_renewal_date-next_example :
    (calculate_renewal_date today ≡ some (month_later today)) × IsDate (month_later today)
calculate_renewal_date-next_example = calculate_renewal_date-next today today-IsDate (omega arith)

find_matching_plan-Cheapest_example :
    (found : Option ℕ) × (find_matching_plan 70 (fresh database) ≡ (ok found, fresh database))
    × Cheapest 70 database.plans found
find_matching_plan-Cheapest_example = find_matching_plan-Cheapest 70 database refl

cancel_user_subscription-fresh_example :
    cancel_user_subscription stripe 6 (some 1) false false (fresh database)
    ≡ cancellation (some 1) database (monthly ∷ [])
cancel_user_subscription-fresh_example =
    cancel_user_subscription-fresh stripe database database-constraints 6 (some 1)

-- The same call cancels.
cancellation-canceled :
    cancellation (some 1) database (monthly ∷ [])
    ≡ (ok (cancelled (some today) false), fresh (set_subscription 6 cancel_row database))
unfolding set_subscription
cancellation-canceled = refl

serve-created_example :
    (serve
      (record {
        context = unawaitable;
        faults = [];
        request = webhook (record { id = 100; body = subscription_created trial });
      })
      database).transactions
    ≡ database.transactions
serve-created_example = serve-created unawaitable [] 100 trial database refl

database-IsSingle : IsSingle database
database-IsSingle = record { for_user = λ u. ground arith }

serve-IsSingle_example : IsSingle (
    serve
      (record {
        context = context;
        faults = none ∷ none ∷ none ∷ some sqlalchemy_error ∷ [];
        request = plan 1 4 none none false none none;
      })
      database)
serve-IsSingle_example =
    serve-IsSingle context (none ∷ none ∷ none ∷ some sqlalchemy_error ∷ []) 1 4 none none false
      none none database database-IsSingle

use_credits-add_credits_example :
    balances 1 (
      after (use_credits context.test today 1 (pos 200) none none none) (
        after
          (add_credits context.test today 1
            (pos 200)
            none
            none
            TransactionType.credit_added
            none
            none
            none)
          database))
    ≡ pos 500 ∷ []
use_credits-add_credits_example =
    use_credits-add_credits context.test today today 1 (pos 200) none none none none
      TransactionType.credit_added none none none none database credit refl database-constraints
      refl
