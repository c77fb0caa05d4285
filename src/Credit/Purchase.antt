-- ===== src/Credit/Purchase.antt =====
-- `TransactionService` (app/services/credit/transaction.py): purchases, with Stripe as a parameter,
-- the clock's reading and the next random reference as arguments.
use fastapi_auth_service.Prelude.{
  ℕ, ◌*◌, Bool, true, false, Option, none, some, ◌==◌, eq_option, is_some, if◌then◌else◌, select,
}
use fastapi_auth_service.Prelude.Int.{ℤ, sub_ℕ, pos_part, neg_part}
use fastapi_auth_service.Db.Schema.{
  Text, DateTime, User, Plan, Subscription, Status, TransactionType, Description,
}
use fastapi_auth_service.Db.Tables.{add_subscription, set_subscription}
use fastapi_auth_service.Db.Session.{
  Exn, http, value_error, Notice, Result, ok, err, Exec, pure, raise, lift, ◌>>=◌, ◌>>◌, try_except,
  query, modify, gets, commit, rollback, refresh, publish, scalar_one_or_none,
}
use fastapi_auth_service.Credit.Renewal.{calculate_renewal_date}
use fastapi_auth_service.Credit.Account.{TransactionResponse, db_error_handler, add_credits}
use fastapi_auth_service.Credit.Plans.{get_plan_by_id, get_active_subscription}

-- Cents as tenths of a cent.
abbrev pub tenths : ℤ → ℤ
tenths a = sub_ℕ (pos_part a * 10) (neg_part a * 10)

abbrev pub or_else : Option ℤ → ℤ → ℤ
or_else none d = d
or_else (some a) d = a

abbrev pub or_text : Option Text → Text → Text
or_text none d = d
or_text (some t) d = if t == 0 then d else t

abbrev pub or_description : Option Description → Description → Description
or_description none d = d
or_description (some t) d = t

unfoldable pub notify_found : Option User → Exec (Unit {0})
notify_found none = pure tt
notify_found (some u) = publish (Notice.email_to u.id)

-- `_send_email_notification`: the e-mail goes out if the user is there.
unfoldable pub send_email_notification : ℕ → Exec (Unit {0})
unfolding notify_found
send_email_notification user_id = do
  rows ← query (λ d. select (λ u. u.id == user_id) d.users)
  found ← scalar_one_or_none rows
  notify_found found

-- `_check_transaction_exists`
unfoldable pub check_transaction_exists : Text → Exec Bool
check_transaction_exists t = do
  rows ← query (λ d. select (λ x. eq_option x.reference_id (some t)) d.transactions)
  found ← scalar_one_or_none rows
  pure (is_some found)

abbrev pub when : Bool → Exec (Unit {0}) → Exec (Unit {0})
when b m = if b then m else pure tt

abbrev pub require : Bool → ℕ → Exec (Unit {0})
require b status = if b then pure tt else raise (http status)

unfoldable pub deactivate_existing : Option Subscription → Exec (Unit {0})
deactivate_existing none = pure tt
deactivate_existing (some s) = do
  modify (set_subscription s.id (λ r. record r { is_active = false; status = Status.replaced }))
  commit

abbrev pub renewal_or_raise : Option DateTime → Result DateTime
renewal_or_raise none = err value_error
renewal_or_raise (some t) = ok t

-- The column's default, "active", also stands for the `None` that is passed with no Stripe id.
unfoldable pub new_subscription : ℕ → ℕ → ℕ → Option Text → DateTime → Subscription
new_subscription id user_id plan_id stripe_id renewal_date = record {
  id = id;
  user_id = user_id;
  plan_id = some plan_id;
  renewal_date = some renewal_date;
  is_active = true;
  auto_renew = true;
  last_renewal_date = none;
  status = Status.active;
  stripe_subscription_id = stripe_id;
  stripe_customer_id = none;
  stripe_price_id = none;
  trial_end_date = none;
  current_period_start = none;
  current_period_end = none;
  cancel_at_period_end = false;
  canceled_at = none;
}

unfoldable pub create_subscription :
    DateTime → ℕ → ℕ → Option Text → Option Plan → Exec (Plan × Subscription)
unfolding deactivate_existing new_subscription get_active_subscription calculate_renewal_date
create_subscription now user_id plan_id stripe_id none = raise (http 404)
create_subscription now user_id plan_id stripe_id (some plan) = do
  existing ← get_active_subscription user_id
  deactivate_existing existing
  renewal_date ← lift (renewal_or_raise (calculate_renewal_date now))
  id ← gets (λ d. d.next_id)
  modify (add_subscription (new_subscription id user_id plan_id stripe_id renewal_date))
  commit
  refresh
  pure (plan, new_subscription id user_id plan_id stripe_id renewal_date)

unfoldable pub mark_payment_issue : {A : Type 0} → ℕ → Exn → Exec A
mark_payment_issue id e = do
  modify (set_subscription id (λ r. record r { status = Status.payment_issue }))
  commit
  raise e

module _ (test : Text → Bool) (now : DateTime) (uuid : Text) where
  unfoldable pub purchase_one_time_credits :
      ℕ → ℤ → ℤ → Option Text → Option Description → Bool → Exec TransactionResponse
  unfolding add_credits send_email_notification db_error_handler
  purchase_one_time_credits user_id amount price reference_id description background_tasks =
      db_error_handler (do
        transaction ←
            add_credits test now user_id amount (some (or_text reference_id uuid))
              (some (or_description description (Description.one_time_purchase_of amount)))
              TransactionType.one_time_purchase none none (some (tenths price))
        when background_tasks (send_email_notification user_id)
        pure transaction)

  unfoldable pub credit_plan :
      ℕ
      → ℕ
      → Option Text
      → Option Description
      → Bool
      → Option ℤ
      → Plan
      → Subscription
      → Exec (TransactionResponse × Subscription)
  unfolding mark_payment_issue add_credits send_email_notification
  credit_plan user_id plan_id reference_id description background_tasks credit_amount plan s = do
    transaction ←
        try_except
          (add_credits test now user_id (or_else credit_amount plan.credit_amount)
            (some (or_text reference_id uuid))
            (some (or_description description (Description.purchase_of_plan plan.name)))
            TransactionType.plan_purchase (some plan_id) (some s.id) (some (tenths plan.price)))
          (mark_payment_issue s.id)
    when background_tasks (send_email_notification user_id)
    pure (transaction, s)

  unfoldable pub purchase_plan :
      ℕ
      → ℕ
      → Option Text
      → Option Description
      → Bool
      → Option Text
      → Option ℤ
      → Exec (TransactionResponse × Subscription)
  unfolding create_subscription credit_plan get_plan_by_id db_error_handler
  purchase_plan user_id plan_id reference_id description background_tasks stripe_id credit_amount =
      db_error_handler (do
        created ←
            try_except
              (get_plan_by_id plan_id >>= create_subscription now user_id plan_id stripe_id)
              (λ e. rollback >> raise e)
        credit_plan user_id plan_id reference_id description background_tasks credit_amount
            created.0 created.1)
