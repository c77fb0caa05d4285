-- ===== src/Stripe.antt =====
-- app/services/stripe_async.py and app/services/credit/stripe_integration.py. Stripe itself is a
-- parameter: a record of the answers that its calls give, each of which may be an exception.
use fastapi_auth_service.Prelude.{
  ℕ, Bool, true, false, ◌&&◌, Option, none, some, ◌==◌, if◌then◌else◌, select, is_some,
}
use fastapi_auth_service.Prelude.Int.{ℤ, pos}
use fastapi_auth_service.Db.Schema.{Text, Status, Subscription}
use fastapi_auth_service.Db.Session.{
  Notice, Result, ok, err, Exec, pure, ◌>>=◌, ◌>>◌, try_except, query, modify, commit, publish,
  scalar_one_or_none,
}
use fastapi_auth_service.Db.Tables.{set_subscription}

pub data IntentStatus : Type 0 where
  succeeded processing : IntentStatus
  other : Text → IntentStatus

pub record PaymentIntent : Type 0 where
  pub status : IntentStatus
  pub amount : ℕ

-- `current_period_end` is `none` where the object lacks the attribute and reading it raises.
-- `item_plan` is the plan of the first item, its amount in cents and its price identifier.
pub record StripeSubscription : Type 0 where
  pub status : Status
  pub item_plan : Option (ℕ × Text)
  pub current_period_end : Option ℕ
  pub default_payment_method : Option Text
  pub customer : Text

pub record PaymentMethod : Type 0 where
  pub card_fingerprint : Option Text

pub record StripeApi : Type 0 where
  pub retrieve_intent : Text → Result (Option PaymentIntent)
  pub retrieve_subscription : Text → Result (Option StripeSubscription)
  pub retrieve_payment_method : Text → Result (Option PaymentMethod)
  -- The status of the subscription that the cancellation returns.
  pub cancel : Text → Result (Option Status)
  pub modify_cancel_at_period_end : Text → Result (Unit {0})

-- `status in ['active', 'trialing']`
abbrev pub is_live : Status → Bool
is_live Status.active = true
is_live Status.trialing = true
is_live _ = false

pub data ObjectType : Type 0 where
  payment_intent subscription : ObjectType

-- The dictionary that `verify_transaction_id` returns.
pub record Verification : Type 0 where
  pub verified : Bool
  pub object_type : Option ObjectType
  pub amount : Option ℤ
  pub plan_id : Option Text

abbrev pub not_verified : Verification
not_verified = record { verified = false; object_type = none; amount = none; plan_id = none }

abbrev pub item_amount : Option (ℕ × Text) → ℤ
item_amount none = pos 0
item_amount (some (a, p)) = pos a

abbrev pub item_price : Option (ℕ × Text) → Option Text
item_price none = none
item_price (some (a, p)) = some p

-- A retrieved subscription is verified whatever its status; where its details cannot be read the
-- answer has neither an amount nor a plan.
unfoldable pub subscription_details : StripeSubscription → Option ℕ → Verification
subscription_details s (some t) = record {
  verified = true;
  object_type = some subscription;
  amount = some (item_amount s.item_plan);
  plan_id = item_price s.item_plan;
}
subscription_details s none = record {
  verified = true;
  object_type = some subscription;
  amount = none;
  plan_id = none;
}

unfoldable pub verify_as_subscription : Result (Option StripeSubscription) → Verification
unfolding subscription_details
verify_as_subscription (ok (some s)) = subscription_details s s.current_period_end
verify_as_subscription (ok none) = not_verified
verify_as_subscription (err e) = not_verified

abbrev pub is_paid : IntentStatus → Bool
is_paid succeeded = true
is_paid processing = true
is_paid (other t) = false

abbrev pub intent_details : PaymentIntent → Verification
intent_details p = record {
  verified = true;
  object_type = some payment_intent;
  amount = some (pos p.amount);
  plan_id = none;
}

unfoldable pub verify_as_intent : Result (Option PaymentIntent) → Verification → Verification
verify_as_intent (ok (some p)) otherwise = if is_paid p.status then intent_details p else otherwise
verify_as_intent (ok none) otherwise = otherwise
verify_as_intent (err e) otherwise = otherwise

module _ (api : StripeApi) where
  -- First as a payment intent, then as a subscription.
  unfoldable pub verify_transaction_id : Text → Verification
  unfolding verify_as_intent verify_as_subscription
  verify_transaction_id t =
      verify_as_intent (api.retrieve_intent t)
        (verify_as_subscription (api.retrieve_subscription t))

  unfoldable pub is_live_answer : Result (Option StripeSubscription) → Bool
  is_live_answer (ok (some s)) = is_live s.status
  is_live_answer (ok none) = false
  is_live_answer (err e) = false

  -- Every error reads as "not active".
  unfoldable pub verify_subscription_active : Text → Bool
  unfolding is_live_answer
  verify_subscription_active t = is_live_answer (api.retrieve_subscription t)

  unfoldable pub is_canceled_answer : Result (Option Status) → Bool
  is_canceled_answer (ok (some Status.canceled)) = true
  is_canceled_answer (ok (some s)) = false
  is_canceled_answer (ok none) = false
  is_canceled_answer (err e) = false

  unfoldable pub cancel_subscription : Text → Exec Bool
  unfolding is_canceled_answer
  cancel_subscription t = do
    publish (Notice.stripe_cancel t)
    pure (is_canceled_answer (api.cancel t))

  -- The details of a live subscription are read last, and an unreadable date raises.
  unfoldable pub sync_live : Subscription → StripeSubscription → Exec (Option Subscription)
  sync_live s live =
      if is_live live.status
      then pure (if is_some live.current_period_end then some s else none)
      else do
        modify (set_subscription s.id (λ r. record r { is_active = false; status = live.status }))
        commit
        pure none

  unfoldable pub sync_answer :
      Subscription → Result (Option StripeSubscription) → Exec (Option Subscription)
  unfolding sync_live
  sync_answer s (ok (some live)) = sync_live s live
  sync_answer s (ok none) = pure none
  sync_answer s (err e) = pure none

  unfoldable pub look_up_in_stripe : Subscription → Option Text → Exec (Option Subscription)
  unfolding sync_answer
  look_up_in_stripe s none = pure none
  look_up_in_stripe s (some t) =
      if t == 0 then pure none else sync_answer s (api.retrieve_subscription t)

  unfoldable pub active_in_stripe : Option Subscription → Exec (Option Subscription)
  unfolding look_up_in_stripe
  active_in_stripe none = pure none
  active_in_stripe (some s) = look_up_in_stripe s s.stripe_subscription_id

  -- The user's subscription that is active here and in Stripe. A subscription that Stripe no longer
  -- has as active is deactivated here; every exception reads as "none".
  unfoldable pub check_active_subscription : ℕ → Exec (Option Subscription)
  unfolding active_in_stripe
  check_active_subscription user_id =
      try_except
        (do
          rows ← query (λ d. select (λ r. r.user_id == user_id && r.is_active) d.subscriptions)
          found ← scalar_one_or_none rows
          active_in_stripe found)
        (λ e. pure none)
