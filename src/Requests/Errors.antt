-- ===== src/Requests/Errors.antt =====
-- The exceptions of the operations under `db_error_handler` (app/services/credit/decorators.py) and of
-- the webhook endpoint.
use fastapi_auth_service.Prelude.{◌≡◌, Bool, true, false}
use fastapi_auth_service.Db.Session.{Exn, http, Exec, Session, pure, ◌>>◌, rollback}
use fastapi_auth_service.Db.OnlyHttp.{
  is_http_or, OnlyHttp, OnlyHttp-pure, OnlyHttp-raise, OnlyHttp-try, OnlyHttp-bind, OnlyHttp-if,
  OnlyHttp-rollback,
}
use fastapi_auth_service.Credit.Account.{
  rollback_and_raise, db_error_handler, add_credits, use_credits,
}
use fastapi_auth_service.Credit.Purchase.{purchase_one_time_credits, purchase_plan}
use fastapi_auth_service.Credit.Verified.{
  verify_and_process_one_time_payment, verify_and_process_subscription,
}
use fastapi_auth_service.Credit.Subscriptions.{
  renew_subscription, update_subscription_auto_renew, cancel_user_subscription,
}
use fastapi_auth_service.Webhook.Events.{StripeEvent}
use fastapi_auth_service.Webhook.Endpoint.{
  is_event_processed, process, endpoint_error, stripe_webhook_endpoint,
}
use fastapi_auth_service.Requests.{
  Context, Request, balance, add, use_up, one_time, plan, verify_payment, verify_subscription,
  renew, auto_renew, stripe_status, cancel, webhook, run,
}

rollback_and_raise-OnlyHttp : {A : Type 0} (e : Exn) → OnlyHttp true (rollback_and_raise {A = A} e)
unfolding rollback_and_raise
rollback_and_raise-OnlyHttp (http status) = OnlyHttp-raise status
rollback_and_raise-OnlyHttp e = OnlyHttp-bind rollback _ OnlyHttp-rollback (λ _. OnlyHttp-raise 500)

db_error_handler-OnlyHttp : {A : Type 0} (m : Exec A) → OnlyHttp true (db_error_handler m)
unfolding db_error_handler
db_error_handler-OnlyHttp m = OnlyHttp-try m _ rollback_and_raise-OnlyHttp

endpoint_error-OnlyHttp :
    (x : Context) (e : Exn) → OnlyHttp false (endpoint_error x.platform x.trial_credits x.now e)
unfolding endpoint_error
endpoint_error-OnlyHttp x (http status) = OnlyHttp-raise status
endpoint_error-OnlyHttp x e =
    OnlyHttp-bind _ _ (OnlyHttp-try _ _ (λ _. OnlyHttp-pure tt)) (λ _. OnlyHttp-raise 500)

endpoint-OnlyHttp :
    (x : Context) (e : StripeEvent)
    → OnlyHttp false (stripe_webhook_endpoint x.platform x.trial_credits x.now e)
unfolding stripe_webhook_endpoint is_event_processed process
endpoint-OnlyHttp x e =
    OnlyHttp-bind _ _ (OnlyHttp-try _ _ (λ _. OnlyHttp-pure false))
      (λ b. OnlyHttp-if b _ _ (OnlyHttp-pure _) (OnlyHttp-try _ _ (endpoint_error-OnlyHttp x)))

-- `get_balance` and `update_subscription_status` are not under the error handler.
abbrev pub is_handled : Request → Bool
is_handled (balance user) = false
is_handled (stripe_status t status) = false
is_handled _ = true

-- The webhook endpoint guards its rollback; the error handler of the credit service does not.
abbrev pub may_fail_to_roll_back : Request → Bool
may_fail_to_roll_back (webhook e) = false
may_fail_to_roll_back _ = true

done-OnlyHttp :
    {b : Bool} {A : Type 0} (m : Exec A) → OnlyHttp b m → OnlyHttp b (m >> pure (tt {0}))
done-OnlyHttp m h = OnlyHttp-bind m _ h (λ _. OnlyHttp-pure tt)

run-OnlyHttp :
    (x : Context) (r : Request) → is_handled r ≡ true → OnlyHttp (may_fail_to_roll_back r) (run x r)
unfolding run add_credits use_credits purchase_one_time_credits purchase_plan
    verify_and_process_one_time_payment verify_and_process_subscription renew_subscription
    update_subscription_auto_renew cancel_user_subscription
run-OnlyHttp x (balance user) h = absurd (cc h)
run-OnlyHttp x (stripe_status t status) h = absurd (cc h)
run-OnlyHttp x (add user amount reference description) h =
    done-OnlyHttp _ (db_error_handler-OnlyHttp _)
run-OnlyHttp x (use_up user amount reference description money) h =
    done-OnlyHttp _ (db_error_handler-OnlyHttp _)
run-OnlyHttp x (one_time user amount price reference description mail) h =
    done-OnlyHttp _ (db_error_handler-OnlyHttp _)
run-OnlyHttp x (plan user key reference description mail stripe_id amount) h =
    done-OnlyHttp _ (db_error_handler-OnlyHttp _)
run-OnlyHttp x (verify_payment user t mail amount) h = done-OnlyHttp _ (db_error_handler-OnlyHttp _)
run-OnlyHttp x (verify_subscription user t mail amount) h =
    done-OnlyHttp _ (db_error_handler-OnlyHttp _)
run-OnlyHttp x (renew id) h = done-OnlyHttp _ (db_error_handler-OnlyHttp _)
run-OnlyHttp x (auto_renew id b) h = done-OnlyHttp _ (db_error_handler-OnlyHttp _)
run-OnlyHttp x (cancel id user in_stripe mail) h = done-OnlyHttp _ (db_error_handler-OnlyHttp _)
run-OnlyHttp x (webhook e) h = done-OnlyHttp _ (endpoint-OnlyHttp x e)

-- In whatever session, the webhook endpoint returns or raises an HTTPException, and so does each
-- request to the credit service but the balance and the status update, unless it raises what a
-- rollback that fails has raised.
pub run-is_http :
    (x : Context) (r : Request) (s : Session)
    → is_handled r ≡ true
    → is_http_or (may_fail_to_roll_back r) (run x r s).0 ≡ true
run-is_http x r s h = (run-OnlyHttp x r h).at s
