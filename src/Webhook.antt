-- ===== src/Webhook.antt =====
-- Stripe's webhooks: app/services/webhook_service.py, the endpoint of
-- app/routers/webhooks/stripe_webhooks.py, and `get_or_create_subscription` of app/core/db_utils.py.
pub mod Events
pub mod Users
pub mod Trials
pub mod Updates
pub mod Invoices
pub mod Endpoint
pub mod Writes
pub mod NoGrant
