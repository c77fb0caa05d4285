-- ===== src/Webhook/Endpoint.antt =====
-- `stripe_webhook_endpoint` (app/routers/webhooks/stripe_webhooks.py), behind the verified signature,
-- with `is_event_processed` and `mark_event_as_processed`.
use fastapi_auth_service.Prelude.{ℕ, Bool, false, [], ◌∷◌, ◌++◌, any, ◌==◌, if◌then◌else◌}
use fastapi_auth_service.Db.Schema.{Text, DateTime, Db, EventType}
use fastapi_auth_service.Db.Session.{
  Exn, http, integrity_error, Exec, pure, raise, ◌>>=◌, ◌>>◌, try_except, query, call, modify,
  commit, rollback,
}
use fastapi_auth_service.Webhook.Events.{
  Platform, StripeEvent, EventBody, checkout, subscription_created, subscription_updated,
  subscription_deleted, payment_succeeded, payment_failed, unhandled, event_type,
}
use fastapi_auth_service.Webhook.Users.{rollback_on_db_error, handle_checkout_session_completed}
use fastapi_auth_service.Webhook.Trials.{handle_customer_subscription_created}
use fastapi_auth_service.Webhook.Updates.{handle_customer_subscription_updated}
use fastapi_auth_service.Webhook.Invoices.{
  handle_invoice_payment_succeeded, handle_invoice_payment_failed,
}

-- `SELECT EXISTS (…)`
abbrev pub is_processed : Text → Db → Bool
is_processed event_id d = any (λ e. e.stripe_event_id == event_id) d.processed_events

-- An error of the database reads as "not processed".
unfoldable pub is_event_processed : Text → Exec Bool
is_event_processed event_id = try_except (query (is_processed event_id)) (λ _. pure false)

-- `INSERT … ON CONFLICT DO NOTHING`
abbrev pub mark : Text → EventType → Db → Db
mark event_id type d = if is_processed event_id d then d else record d {
  processed_events =
      d.processed_events ++ (record { stripe_event_id = event_id; event_type = type }) ∷ [];
}

unfoldable pub mark_failed : Exn → Exec (Unit {0})
unfolding rollback_on_db_error
mark_failed integrity_error = rollback
mark_failed e = rollback_on_db_error e

unfoldable pub mark_event_as_processed : Text → EventType → Exec (Unit {0})
unfolding mark_failed
mark_event_as_processed event_id type =
    try_except (do call; modify (mark event_id type); commit) mark_failed

pub data WebhookStatus : Type 0 where
  success already_processed unhandled_event : WebhookStatus

abbrev pub status_of : EventBody → WebhookStatus
status_of (unhandled t) = unhandled_event
status_of _ = success

module _ (p : Platform) (credits : ℕ) (now : DateTime) where
  unfoldable pub dispatch : EventBody → Exec (Unit {0})
  unfolding handle_checkout_session_completed handle_customer_subscription_created
      handle_customer_subscription_updated handle_invoice_payment_succeeded
      handle_invoice_payment_failed
  dispatch (checkout c) = handle_checkout_session_completed c
  dispatch (subscription_created s) = handle_customer_subscription_created p credits now s
  dispatch (subscription_updated s) = handle_customer_subscription_updated p s
  dispatch (subscription_deleted s) = handle_customer_subscription_updated p s
  dispatch (payment_succeeded i) = handle_invoice_payment_succeeded i
  dispatch (payment_failed i) = handle_invoice_payment_failed p i
  dispatch (unhandled t) = pure tt

  -- `except HTTPException: raise`; any other exception is rolled back, and Stripe is to retry.
  unfoldable pub endpoint_error : Exn → Exec WebhookStatus
  endpoint_error (http status) = raise (http status)
  endpoint_error e = do try_except rollback (λ _. pure tt); raise (http 500)

  unfoldable pub process : StripeEvent → Exec WebhookStatus
  unfolding dispatch mark_event_as_processed endpoint_error
  process e =
      try_except
        (do
          dispatch e.body
          mark_event_as_processed e.id (event_type e.body)
          pure (status_of e.body))
        endpoint_error

  unfoldable pub stripe_webhook_endpoint : StripeEvent → Exec WebhookStatus
  unfolding is_event_processed process
  stripe_webhook_endpoint e = do
    processed ← is_event_processed e.id
    if processed then pure already_processed else process e
