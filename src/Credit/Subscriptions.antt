-- ===== src/Credit/Subscriptions.antt =====
-- `SubscriptionService` (app/services/credit/subscription.py): renewal, the auto-renewal setting,
-- the status that Stripe reports, and cancellation.
pub mod Cancel
use fastapi_auth_service.Prelude.{
  ℕ, Bool, true, false, not, ◌&&◌, ◌||◌, Option, none, some, ◌==◌, if◌then◌else◌,
}
use fastapi_auth_service.Db.Schema.{
  Text, DateTime, Plan, Subscription, Status, TransactionType, Description, truthy,
}
use fastapi_auth_service.Db.Tables.{set_subscription}
use fastapi_auth_service.Db.Session.{
  Exn, http, value_error, Notice, Result, ok, err, Exec, pure, raise, lift, ◌>>=◌, ◌>>◌, try_except,
  modify, commit, refresh, publish,
}
use fastapi_auth_service.Stripe.{StripeApi, verify_subscription_active, cancel_subscription}
use fastapi_auth_service.Credit.Renewal.{calculate_renewal_date}
use fastapi_auth_service.Credit.Account.{TransactionResponse, db_error_handler, add_credits}
use fastapi_auth_service.Credit.Plans.{
  get_plan_by_id, get_subscription_by_id, get_subscription_by_stripe_id,
}
use fastapi_auth_service.Credit.Purchase.{when, require, send_email_notification}

-- Whether Stripe, asked where there is a Stripe id, still has the subscription as active.
unfoldable pub still_active : StripeApi → Option Text → Bool
unfolding verify_subscription_active
still_active api none = true
still_active api (some t) = if t == 0 then true else verify_subscription_active api t

unfoldable pub next_renewal : Option DateTime → Result DateTime
unfolding calculate_renewal_date
next_renewal none = err value_error
next_renewal (some t) = elim (calculate_renewal_date t) [ none ↦ err value_error | some r ↦ ok r ]

abbrev pub plan_of : Option ℕ → ℕ
plan_of none = 0
plan_of (some k) = k

unfoldable pub deactivate : ℕ → Exec (Option TransactionResponse)
deactivate id = do
  modify (set_subscription id (λ r. record r { is_active = false; status = Status.inactive }))
  commit
  pure none

module _ (api : StripeApi) (test : Text → Bool) (now : DateTime) (uuid : Text) where
  unfoldable pub renew_active : Subscription → Plan → Exec (Option TransactionResponse)
  unfolding next_renewal add_credits
  renew_active s plan = do
    renewal_date ← lift (next_renewal s.renewal_date)
    modify (
        set_subscription s.id
          (λ r. record r { last_renewal_date = s.renewal_date; renewal_date = some renewal_date }))
    commit
    refresh
    transaction ←
        add_credits test now s.user_id plan.credit_amount (some uuid)
          (some (Description.renewal_of_plan plan.name)) TransactionType.plan_renewal (some plan.id)
          (some s.id) none
    pure (some transaction)

  unfoldable pub renew_with_plan : Subscription → Option Plan → Exec (Option TransactionResponse)
  unfolding still_active renew_active deactivate
  renew_with_plan s none = pure none
  renew_with_plan s (some plan) =
      if still_active api s.stripe_subscription_id then renew_active s plan else deactivate s.id

  unfoldable pub renew_found : Option Subscription → Exec (Option TransactionResponse)
  unfolding renew_with_plan get_plan_by_id
  renew_found none = pure none
  renew_found (some s) =
      if s.is_active
      then (do plan ← get_plan_by_id (plan_of s.plan_id); renew_with_plan s plan)
      else pure none

  -- The renewed subscription itself is what the session then holds.
  unfoldable pub renew_subscription : ℕ → Exec (Option TransactionResponse)
  unfolding renew_found get_subscription_by_id db_error_handler
  renew_subscription subscription_id =
      db_error_handler (get_subscription_by_id subscription_id >>= renew_found)

module _ (api : StripeApi) where
  -- An error of the call to Stripe is logged and passed over.
  unfoldable pub tell_stripe : Option Text → Exec (Unit {0})
  tell_stripe none = pure tt
  tell_stripe (some t) =
      try_except
        (do
          publish (Notice.stripe_cancel_at_period_end t)
          lift (api.modify_cancel_at_period_end t))
        (λ _. pure tt)

  unfoldable pub set_auto_renew : Bool → Option Subscription → Exec ℕ
  unfolding tell_stripe
  set_auto_renew auto_renew none = raise (http 404)
  set_auto_renew auto_renew (some s) = do
    when (truthy s.stripe_subscription_id && not auto_renew && s.auto_renew)
        (tell_stripe s.stripe_subscription_id)
    modify (set_subscription s.id (λ r. record r { auto_renew = auto_renew }))
    commit
    refresh
    pure s.id

  -- The primary key stands for the subscription object that is returned.
  unfoldable pub update_subscription_auto_renew : ℕ → Bool → Exec ℕ
  unfolding set_auto_renew get_subscription_by_id db_error_handler
  update_subscription_auto_renew subscription_id auto_renew =
      db_error_handler (get_subscription_by_id subscription_id >>= set_auto_renew auto_renew)

abbrev pub active_by_status : Status → Bool → Bool
active_by_status Status.active before = true
active_by_status Status.trialing before = true
active_by_status Status.canceled before = false
active_by_status Status.unpaid before = false
active_by_status Status.past_due before = false
active_by_status _ before = before

unfoldable pub set_status : Status → Option Subscription → Exec (Option ℕ)
set_status status none = pure none
set_status status (some s) = do
  modify (
      set_subscription s.id
        (λ r. record r { status = status; is_active = active_by_status status r.is_active }))
  commit
  refresh
  pure (some s.id)

unfoldable pub update_subscription_status : Text → Status → Exec (Option ℕ)
unfolding set_status get_subscription_by_stripe_id
update_subscription_status stripe_subscription_id status =
    get_subscription_by_stripe_id stripe_subscription_id >>= set_status status

-- What `cancel_subscription` returns: `(False, None)`, `(False, {"error": …})` for a subscription that
-- is canceled already and for any other exception, and `(True, {…})` with whether Stripe failed.
pub data Cancellation : Type 0 where
  not_found already_canceled internal_error : Cancellation
  cancelled : Option DateTime → Bool → Cancellation

abbrev pub is_canceled : Status → Bool
is_canceled Status.canceled = true
is_canceled _ = false

abbrev pub owned_by : Option ℕ → ℕ → Bool
owned_by none owner = true
owned_by (some user_id) owner = owner == user_id

unfoldable pub notify_canceled : Bool → Option ℕ → Exec (Unit {0})
unfolding send_email_notification
notify_canceled background_tasks none = pure tt
notify_canceled background_tasks (some user_id) =
    when background_tasks (send_email_notification user_id)

abbrev pub give_up : Exn → Exec Cancellation
give_up (http status) = raise (http status)
give_up _ = pure internal_error

module _ (api : StripeApi) where
  -- Whether Stripe refused or failed.
  unfoldable pub cancel_in_stripe_if : Bool → Option Text → Exec Bool
  unfolding cancel_subscription
  cancel_in_stripe_if wanted none = pure false
  cancel_in_stripe_if wanted (some t) =
      if wanted && not (t == 0)
      then (do done ← cancel_subscription api t; pure (not done))
      else pure false

  unfoldable pub cancel_active : Option ℕ → Bool → Bool → Subscription → Exec Cancellation
  unfolding cancel_in_stripe_if notify_canceled get_plan_by_id
  cancel_active user_id in_stripe background_tasks s = do
    plan ← get_plan_by_id (plan_of s.plan_id)
    stripe_error ← cancel_in_stripe_if in_stripe s.stripe_subscription_id
    modify (
        set_subscription s.id
          (λ r. record r { is_active = false; status = Status.canceled; auto_renew = false }))
    commit
    notify_canceled background_tasks user_id
    pure (cancelled s.renewal_date stripe_error)

  unfoldable pub cancel_found : Option ℕ → Bool → Bool → Option Subscription → Exec Cancellation
  unfolding cancel_active
  cancel_found user_id in_stripe background_tasks none = pure not_found
  cancel_found user_id in_stripe background_tasks (some s) = do
    require (owned_by user_id s.user_id) 403
    if is_canceled s.status || not s.is_active
        then pure already_canceled
        else cancel_active user_id in_stripe background_tasks s

  unfoldable pub cancel_user_subscription : ℕ → Option ℕ → Bool → Bool → Exec Cancellation
  unfolding cancel_found get_subscription_by_id db_error_handler
  cancel_user_subscription subscription_id user_id in_stripe background_tasks = db_error_handler (
      try_except
        (get_subscription_by_id subscription_id >>= cancel_found user_id in_stripe background_tasks)
        give_up)
