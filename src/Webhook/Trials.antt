-- ===== src/Webhook/Trials.antt =====
-- `handle_customer_subscription_created`: the local subscription, and the free trial's credits.
use fastapi_auth_service.Prelude.{
  ℕ, Bool, true, false, not, ◌&&◌, Option, none, some, is_some, ◌==◌, if◌then◌else◌, select,
  head_option,
}
use fastapi_auth_service.Prelude.Int.{ℤ, pos, ◌+ℤ◌}
use fastapi_auth_service.Db.Schema.{
  Text, DateTime, User, UserCredit, CreditTransaction, TransactionType, Description, Subscription,
  Status, AccountStatus, truthy,
}
use fastapi_auth_service.Db.Tables.{
  set_account_status, set_user, set_subscription, set_credit, add_credit, add_transaction,
}
use fastapi_auth_service.Db.Session.{
  value_error, Notice, Exec, pure, raise, ◌>>=◌, ◌>>◌, try_except, query, call, modify, gets, flush,
  rollback, publish,
}
use fastapi_auth_service.Webhook.Events.{SubscriptionData, Platform}
use fastapi_auth_service.Webhook.Users.{
  rollback_on_db_error, commit_event, resolve_user, get_user, associate_customer,
  get_or_create_subscription, get_card_fingerprint,
}

abbrev pub is_trialing : Status → Bool
is_trialing Status.trialing = true
is_trialing _ = false

abbrev pub write_created : SubscriptionData → Subscription → Subscription
write_created e s = record s {
  stripe_customer_id = e.customer;
  status = e.status;
  stripe_price_id = e.price_id;
  trial_end_date = e.trial_end;
  current_period_start = e.current_period_start;
  current_period_end = e.current_period_end;
  cancel_at_period_end = e.cancel_at_period_end;
}

-- `credits` is `settings.FREE_TRIAL_CREDITS`, in cents of a credit.
module _ (p : Platform) (credits : ℕ) (now : DateTime) where
  unfoldable pub new_trial_credit : ℕ → Exec UserCredit
  new_trial_credit user_id = do
    id ← gets (λ d. d.next_id)
    let credit : UserCredit = record {
      id = id;
      user_id = user_id;
      balance = pos 0;
      updated_at = now;
    }
    modify (add_credit credit)
    flush
    pure credit

  unfoldable pub credit_or_new : ℕ → Option UserCredit → Exec UserCredit
  unfolding new_trial_credit
  credit_or_new user_id (some credit) = pure credit
  credit_or_new user_id none = new_trial_credit user_id

  unfoldable pub trial_grant : ℕ → ℕ → Text → ℕ → CreditTransaction
  trial_grant user_id credit_id stripe_id id = record {
    id = id;
    user_id = user_id;
    user_credit_id = credit_id;
    amount = pos credits;
    transaction_type = TransactionType.trial_credit_grant;
    reference_id = some stripe_id;
    description = some (Description.initial_trial_credits (pos credits));
    plan_id = none;
    subscription_id = none;
    created_at = now;
  }

  abbrev pub start_trial : User → User
  start_trial u = record u {
    has_consumed_initial_trial = true;
    account_status = AccountStatus.trialing;
  }

  abbrev pub grant : ℤ → UserCredit → UserCredit
  grant amount c = record c { balance = c.balance +ℤ amount }

  -- The balance, the transaction and the flag are written together, before any other call.
  unfoldable pub grant_trial : User → SubscriptionData → Exec (Unit {0})
  unfolding credit_or_new trial_grant
  grant_trial u e = do
    rows ← query (λ d. select (λ c. c.user_id == u.id) d.credits)
    credit ← credit_or_new u.id (head_option rows)
    id ← gets (λ d. d.next_id)
    modify (λ d. set_user u.id start_trial (
        add_transaction (trial_grant u.id credit.id e.id id)
          (set_credit u.id (grant (pos credits)) d)))
    publish (Notice.trial_started u.id e.id)

  -- The session's user, with what the handler has written to it.
  unfoldable pub trial_of_user : SubscriptionData → User → Exec (Unit {0})
  unfolding grant_trial
  trial_of_user e u =
      if u.has_consumed_initial_trial
      then (do modify (set_account_status u.id AccountStatus.trialing); call)
      else grant_trial u e

  -- Whether the handler goes on to its commit.
  unfoldable pub trial_step : SubscriptionData → Option User → Exec Bool
  unfolding trial_of_user
  trial_step e none = pure false
  trial_step e (some u) = do trial_of_user e u; pure true

  unfoldable pub created_trial : SubscriptionData → ℕ → Exec Bool
  unfolding trial_step get_user
  created_trial e user_id =
      if is_trialing e.status then (do user ← get_user user_id; trial_step e user) else pure true

  -- A trial needs a card.
  unfoldable pub check_card : SubscriptionData → Exec (Unit {0})
  unfolding get_card_fingerprint
  check_card e =
      if is_trialing e.status && not (truthy (get_card_fingerprint p e))
      then rollback >> raise value_error
      else pure tt

  unfoldable pub merge : Exec (Unit {0})
  unfolding rollback_on_db_error
  merge = try_except call rollback_on_db_error

  unfoldable pub created_for : SubscriptionData → Option ℕ → Exec (Unit {0})
  unfolding get_user associate_customer check_card get_or_create_subscription merge created_trial
      commit_event
  created_for e none = pure tt
  created_for e (some user_id) = do
    user ← get_user user_id
    associate_customer user e.customer
    check_card e
    subscription ← get_or_create_subscription p (is_some e.user_id) user_id e.id
    modify (set_subscription subscription.id (write_created e))
    merge
    go_on ← created_trial e user_id
    if go_on then commit_event else pure tt

  unfoldable pub handle_customer_subscription_created : SubscriptionData → Exec (Unit {0})
  unfolding resolve_user created_for
  handle_customer_subscription_created e = resolve_user e.user_id e.customer >>= created_for e
