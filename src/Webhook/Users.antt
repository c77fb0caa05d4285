-- ===== src/Webhook/Users.antt =====
-- The steps that the handlers share: the user that an event is about, the Stripe customer id, the
-- local subscription, the card's fingerprint; and `handle_checkout_session_completed`.
use fastapi_auth_service.Prelude.{
  ℕ, Bool, true, false, not, ◌&&◌, Option, none, some, ◌==◌, eq_option, is_some, if◌then◌else◌,
  select, head_option,
}
use fastapi_auth_service.Db.Schema.{Text, User, Subscription, Status, truthy}
use fastapi_auth_service.Db.Tables.{set_user, add_subscription, user_by_id}
use fastapi_auth_service.Db.Session.{
  Exn, is_sqlalchemy_error, value_error, type_error, Result, ok, err, Exec, pure, raise, ◌>>=◌,
  ◌>>◌, try_except, query, modify, gets, commit, rollback,
}
use fastapi_auth_service.Webhook.Events.{CheckoutSession, SubscriptionData, Platform}

-- `except SQLAlchemyError as e: await self.db.rollback(); raise`
unfoldable pub rollback_on_db_error : {A : Type 0} → Exn → Exec A
rollback_on_db_error e = if is_sqlalchemy_error e then (rollback >> raise e) else raise e

unfoldable pub commit_event : Exec (Unit {0})
unfolding rollback_on_db_error
commit_event = try_except commit rollback_on_db_error

-- `select(User.id).where(User.stripe_customer_id == customer)`, and its first row.
unfoldable pub user_of_customer : Option Text → Exec (Option ℕ)
user_of_customer customer = do
  rows ← query (λ d. select (λ u. eq_option u.stripe_customer_id customer) d.users)
  pure (elim (head_option rows) [ none ↦ none | some u ↦ some u.id ])

-- The user id of the metadata, or else that of the customer.
unfoldable pub resolve_user : Option ℕ → Option Text → Exec (Option ℕ)
unfolding user_of_customer
resolve_user (some id) customer = pure (some id)
resolve_user none customer = user_of_customer customer

-- `db.get(User, user_id)`
unfoldable pub get_user : ℕ → Exec (Option User)
get_user user_id = query (user_by_id user_id)

abbrev pub keep_customer : Option Text → User → User
keep_customer customer u =
    if is_some u.stripe_customer_id then u else record u { stripe_customer_id = customer }

-- The Stripe customer id is set where the user has none, and never overwritten.
unfoldable pub associate_customer : Option User → Option Text → Exec (Unit {0})
associate_customer none customer = pure tt
associate_customer (some u) customer = modify (set_user u.id (keep_customer customer))

-- The same, where the event names a customer.
unfoldable pub associate_given : Option User → Option Text → Exec (Unit {0})
unfolding associate_customer
associate_given user customer =
    if truthy customer then associate_customer user customer else pure tt

-- A row of `subscriptions` that has only its owner and its Stripe id: the plan and the renewal date,
-- which may not be null, are missing.
unfoldable pub bare_subscription : ℕ → ℕ → Text → Subscription
bare_subscription id user_id stripe_id = record {
  id = id;
  user_id = user_id;
  plan_id = none;
  renewal_date = none;
  is_active = true;
  auto_renew = true;
  last_renewal_date = none;
  status = Status.active;
  stripe_subscription_id = some stripe_id;
  stripe_customer_id = none;
  stripe_price_id = none;
  trial_end_date = none;
  current_period_start = none;
  current_period_end = none;
  cancel_at_period_end = false;
  canceled_at = none;
}

-- `is_text` says that the user id is the text of an event's metadata. Python finds no text equal to the
-- number of a column.
unfoldable pub found_or_new : Bool → ℕ → Text → Option Subscription → Exec Subscription
unfolding bare_subscription
found_or_new is_text user_id stripe_id none = do
  id ← gets (λ d. d.next_id)
  modify (add_subscription (bare_subscription id user_id stripe_id))
  pure (bare_subscription id user_id stripe_id)
found_or_new is_text user_id stripe_id (some s) =
    if not is_text && s.user_id == user_id then pure s else raise value_error

unfoldable pub find_subscription : Text → Exec (Option Subscription)
find_subscription stripe_id = do
  rows ←
      query (λ d. select (λ s. eq_option s.stripe_subscription_id (some stripe_id)) d.subscriptions)
  pure (head_option rows)

unfoldable pub get_or_create_subscription : Platform → Bool → ℕ → Text → Exec Subscription
unfolding find_subscription found_or_new
get_or_create_subscription p is_text user_id stripe_id = do
  found ← find_subscription stripe_id
  if p.first_is_awaitable then found_or_new is_text user_id stripe_id found else raise type_error

abbrev pub card_or : Option Text → Result (Option Text) → Option Text
card_or details (ok (some f)) = if f == 0 then details else some f
card_or details (ok none) = details
card_or details (err e) = none

abbrev pub look_up : (Text → Result (Option Text)) → Option Text → Result (Option Text)
look_up f none = ok none
look_up f (some t) = f t

-- `get_card_fingerprint_from_event`: an error of Stripe gives none.
unfoldable pub get_card_fingerprint : Platform → SubscriptionData → Option Text
get_card_fingerprint p e =
    if truthy e.payment_intent
    then card_or e.card_details_fingerprint (look_up p.intent_card e.payment_intent)
    else if truthy e.setup_intent
    then card_or e.card_details_fingerprint (look_up p.setup_card e.setup_intent)
    else if truthy e.default_payment_method
    then card_or e.card_details_fingerprint (look_up p.method_card e.default_payment_method)
    else e.card_details_fingerprint

unfoldable pub swallow_db_error : Exn → Exec (Unit {0})
swallow_db_error e = if is_sqlalchemy_error e then rollback else raise e

-- The user's customer id is set where there is none, in a transaction of its own.
unfoldable pub associate_and_commit : Option User → Option Text → Exec (Unit {0})
unfolding swallow_db_error
associate_and_commit none customer = pure tt
associate_and_commit (some u) customer =
    if is_some u.stripe_customer_id
    then pure tt
    else do modify (set_user u.id (keep_customer customer)); try_except commit swallow_db_error

unfoldable pub associate_session_user : Option ℕ → Option Text → Exec (Unit {0})
unfolding get_user associate_and_commit
associate_session_user none customer = pure tt
associate_session_user (some user_id) customer =
    if truthy customer
    then (do user ← get_user user_id; associate_and_commit user customer)
    else pure tt

-- Past the customer id the handler only reads the card's fingerprint and logs it.
unfoldable pub handle_checkout_session_completed : CheckoutSession → Exec (Unit {0})
unfolding associate_session_user
handle_checkout_session_completed c = associate_session_user c.user_id c.customer
