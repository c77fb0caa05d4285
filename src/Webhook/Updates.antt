-- ===== src/Webhook/Updates.antt =====
-- `handle_customer_subscription_updated`, which also serves `customer.subscription.deleted`.
use fastapi_auth_service.Prelude.{
  ℕ, Bool, true, false, not, ◌&&◌, ◌||◌, Option, none, some, is_some, if◌then◌else◌,
}
use fastapi_auth_service.Db.Schema.{Text, User, Subscription, Status, AccountStatus, truthy}
use fastapi_auth_service.Db.Tables.{set_account_status, set_subscription}
use fastapi_auth_service.Db.Session.{
  Notice, Exec, pure, ◌>>=◌, ◌>>◌, call, modify, rollback, publish,
}
use fastapi_auth_service.Webhook.Events.{SubscriptionData, Platform}
use fastapi_auth_service.Webhook.Users.{
  commit_event, resolve_user, get_user, associate_given, find_subscription,
  get_or_create_subscription,
}

-- The account status that a subscription's status calls for; none for the others.
abbrev pub account_status_for : Status → Option AccountStatus
account_status_for Status.active = some AccountStatus.active
account_status_for Status.trialing = some AccountStatus.trialing
account_status_for Status.past_due = some AccountStatus.frozen
account_status_for Status.incomplete = some AccountStatus.frozen
account_status_for Status.unpaid = some AccountStatus.frozen
account_status_for Status.canceled = some AccountStatus.canceled
account_status_for _ = none

abbrev pub is_frozen : AccountStatus → Bool
is_frozen AccountStatus.frozen = true
is_frozen _ = false

abbrev pub is_active : AccountStatus → Bool
is_active AccountStatus.active = true
is_active _ = false

abbrev pub or_kept : {A : Type 0} → Option A → Option A → Option A
or_kept none old = old
or_kept (some a) old = some a

-- `if not subscription_record.stripe_customer_id: …`, only of a record that was just created.
abbrev pub fill_customer : Option Text → Subscription → Subscription
fill_customer customer s =
    if truthy s.stripe_customer_id then s else record s { stripe_customer_id = customer }

-- Values that the event lacks stay as they are.
abbrev pub write_updated : SubscriptionData → Subscription → Subscription
write_updated e s = record s {
  status = e.status;
  stripe_price_id = or_kept e.price_id s.stripe_price_id;
  trial_end_date = or_kept e.trial_end s.trial_end_date;
  current_period_start = or_kept e.current_period_start s.current_period_start;
  current_period_end = or_kept e.current_period_end s.current_period_end;
  cancel_at_period_end = e.cancel_at_period_end;
  canceled_at = or_kept e.canceled_at s.canceled_at;
}

-- The internal event of a change of the account status, from the first to the second.
unfoldable pub publish_change : ℕ → AccountStatus → AccountStatus → Exec (Unit {0})
publish_change user_id before after =
    if is_frozen after && not (is_frozen before)
    then publish (Notice.account_frozen user_id)
    else if is_active after && is_frozen before
    then publish (Notice.account_unfrozen user_id)
    else pure tt

-- Nothing is written or published where the status stays.
unfoldable pub change_account_status : User → Option AccountStatus → Exec (Unit {0})
unfolding publish_change
change_account_status u none = pure tt
change_account_status u (some status) = do
  modify (set_account_status u.id status)
  publish_change u.id u.account_status status

unfoldable pub finish_update : SubscriptionData → Option User → Exec (Unit {0})
unfolding change_account_status commit_event
finish_update e none = rollback
finish_update e (some u) = do change_account_status u (account_status_for e.status); commit_event

module _ (p : Platform) where
  unfoldable pub created_on_update : ℕ → SubscriptionData → Exec Subscription
  unfolding get_or_create_subscription
  created_on_update user_id e = do
    s ← get_or_create_subscription p (is_some e.user_id) user_id e.id
    modify (set_subscription s.id (fill_customer e.customer))
    pure s

  unfoldable pub subscription_to_update :
      ℕ → SubscriptionData → Option Subscription → Exec Subscription
  unfolding created_on_update
  subscription_to_update user_id e (some s) = pure s
  subscription_to_update user_id e none = created_on_update user_id e

  unfoldable pub updated_for : SubscriptionData → Option ℕ → Exec (Unit {0})
  unfolding get_user associate_given find_subscription subscription_to_update finish_update
  updated_for e none = pure tt
  updated_for e (some user_id) = do
    user ← get_user user_id
    associate_given user e.customer
    found ← find_subscription e.id
    subscription ← subscription_to_update user_id e found
    modify (set_subscription subscription.id (write_updated e))
    call
    user ← get_user user_id
    finish_update e user

  -- With no user in the metadata, the customer is looked up only where there is one.
  unfoldable pub updated_user : SubscriptionData → Exec (Option ℕ)
  unfolding resolve_user
  updated_user e =
      if is_some e.user_id || truthy e.customer
      then resolve_user e.user_id e.customer
      else pure none

  unfoldable pub handle_customer_subscription_updated : SubscriptionData → Exec (Unit {0})
  unfolding updated_user updated_for
  handle_customer_subscription_updated e = updated_user e >>= updated_for e
