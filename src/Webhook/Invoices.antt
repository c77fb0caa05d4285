-- ===== src/Webhook/Invoices.antt =====
-- `handle_invoice_payment_succeeded` and `handle_invoice_payment_failed`.
use fastapi_auth_service.Prelude.{
  ℕ, Bool, true, false, ◌&&◌, ◌||◌, Option, none, some, is_some, if◌then◌else◌,
}
use fastapi_auth_service.Db.Schema.{Text, User, Subscription, Status, AccountStatus, truthy}
use fastapi_auth_service.Db.Tables.{set_account_status, set_subscription}
use fastapi_auth_service.Db.Session.{
  other_exception, Notice, Exec, pure, raise, ◌>>=◌, ◌>>◌, call, modify, publish,
}
use fastapi_auth_service.Webhook.Events.{
  Invoice, Platform, BillingReason, subscription_cycle, subscription_create, subscription_update,
}
use fastapi_auth_service.Webhook.Users.{
  commit_event, resolve_user, get_user, associate_given, find_subscription,
  get_or_create_subscription,
}
use fastapi_auth_service.Webhook.Updates.{is_frozen, is_active, fill_customer}

abbrev pub metadata_user : Option (Option ℕ) → Option ℕ
metadata_user none = none
metadata_user (some user_id) = user_id

unfoldable pub invoice_user : Option ℕ → Option Text → Exec (Option ℕ)
unfolding resolve_user
invoice_user user_id customer =
    if is_some user_id || truthy customer then resolve_user user_id customer else pure none

abbrev pub is_active_status : Status → Bool
is_active_status Status.active = true
is_active_status _ = false

unfoldable pub activate_found : Option Subscription → Exec (Unit {0})
activate_found none = pure tt
activate_found (some s) =
    if is_active_status s.status
    then pure tt
    else do modify (set_subscription s.id (λ r. record r { status = Status.active })); call

unfoldable pub activate_subscription : Option Text → Exec (Unit {0})
unfolding find_subscription activate_found
activate_subscription none = pure tt
activate_subscription (some stripe_id) =
    if truthy (some stripe_id)
    then (do found ← find_subscription stripe_id; activate_found found)
    else pure tt

unfoldable pub unfreeze : User → Exec (Unit {0})
unfreeze u = if is_active u.account_status then pure tt else do
  modify (set_account_status u.id AccountStatus.active)
  if is_frozen u.account_status then publish (Notice.account_unfrozen u.id) else pure tt

unfoldable pub paid_by : Invoice → Option User → Exec (Unit {0})
unfolding associate_given activate_subscription unfreeze commit_event
paid_by i none = pure tt
paid_by i (some u) = do
  associate_given (some u) i.customer
  activate_subscription i.subscription
  unfreeze u
  publish (Notice.invoice_paid u.id i.id)
  commit_event

unfoldable pub paid_for : Invoice → Option ℕ → Exec (Unit {0})
unfolding get_user paid_by
paid_for i none = pure tt
paid_for i (some user_id) = do user ← get_user user_id; paid_by i user

unfoldable pub handle_invoice_payment_succeeded : Invoice → Exec (Unit {0})
unfolding invoice_user paid_for
handle_invoice_payment_succeeded i =
    invoice_user (metadata_user i.customer_details) i.customer >>= paid_for i

abbrev pub is_subscription_reason : BillingReason → Bool
is_subscription_reason subscription_cycle = true
is_subscription_reason subscription_create = true
is_subscription_reason subscription_update = true
is_subscription_reason (BillingReason.other t) = false

-- `if user.account_status != 'frozen'`: whether a commit is needed.
unfoldable pub freeze : User → Exec Bool
freeze u = if is_frozen u.account_status then pure false else do
  modify (set_account_status u.id AccountStatus.frozen)
  publish (Notice.account_frozen u.id)
  pure true

module _ (p : Platform) where
  unfoldable pub past_due_subscription : Bool → ℕ → Option Text → Text → Exec Bool
  unfolding get_or_create_subscription
  past_due_subscription is_text user_id customer stripe_id = do
    s ← get_or_create_subscription p is_text user_id stripe_id
    modify (
        set_subscription s.id (λ r. record (fill_customer customer r) { status = Status.past_due }))
    call
    pure true

  unfoldable pub failed_subscription :
      Bool → ℕ → Option Text → Text → Option Subscription → Exec Bool
  unfolding past_due_subscription
  failed_subscription is_text user_id customer stripe_id (some s) = pure false
  failed_subscription is_text user_id customer stripe_id none =
      past_due_subscription is_text user_id customer stripe_id

  -- What a failed payment does to the subscription and the account: whether a commit is needed.
  unfoldable pub failed_payment : Invoice → User → Option Text → Exec Bool
  unfolding find_subscription failed_subscription freeze
  failed_payment i u none = pure false
  failed_payment i u (some stripe_id) =
      if truthy (some stripe_id) && is_subscription_reason i.billing_reason
      then (do
        found ← find_subscription stripe_id
        written ←
            failed_subscription (is_some (metadata_user i.customer_details)) u.id i.customer
              stripe_id found
        frozen ← freeze u
        pure (written || frozen))
      else pure false

  unfoldable pub failed_by : Invoice → Option User → Exec (Unit {0})
  unfolding associate_given failed_payment commit_event
  failed_by i none = pure tt
  failed_by i (some u) = do
    associate_given (some u) i.customer
    needs_commit ← failed_payment i u i.subscription
    publish (Notice.invoice_failed u.id i.id)
    if needs_commit then commit_event else pure tt

  unfoldable pub failed_for : Invoice → Option ℕ → Exec (Unit {0})
  unfolding get_user failed_by
  failed_for i none = pure tt
  failed_for i (some user_id) = do user ← get_user user_id; failed_by i user

  -- `invoice_data.customer_details.get` is not guarded here: with no details it raises.
  unfoldable pub failed_with : Invoice → Option (Option ℕ) → Exec (Unit {0})
  unfolding invoice_user failed_for
  failed_with i none = raise other_exception
  failed_with i (some user_id) = invoice_user user_id i.customer >>= failed_for i

  unfoldable pub handle_invoice_payment_failed : Invoice → Exec (Unit {0})
  unfolding failed_with
  handle_invoice_payment_failed i = failed_with i i.customer_details
