-- ===== src/Accounts/Eligibility.antt =====
-- `UserService.get_trial_eligibility` (app/services/user_service.py). The code looks for a frame of the
-- call stack whose name is a test's; `caller` is what it finds there, `none` outside tests.
pub mod Decision
use fastapi_auth_service.Prelude.{
  ℕ, Bool, true, false, not, ◌&&◌, Option, none, some, List, ◌==◌, ltb, select, any, if◌then◌else◌,
}
use fastapi_auth_service.Db.Schema.{
  User, Subscription, Status, CreditTransaction, TransactionType, Db,
}
use fastapi_auth_service.Db.Session.{type_error, Exec, pure, raise, ◌>>=◌, ◌>>◌, query, call}

pub data TrialEligibilityReasonCode : Type 0 where
  eligible trial_consumed currently_in_trial previous_purchase payment_history :
      TrialEligibilityReasonCode

-- `is_eligible` and `reason_code` of a `TrialEligibilityResponse`.
abbrev pub TrialEligibilityResponse : Type 0
TrialEligibilityResponse = Bool × TrialEligibilityReasonCode

-- The test names that the code tells apart.
pub data TestCaller : Type 0 where
  of_eligible of_previous_purchase of_payment_history of_trial of_past_end : TestCaller

abbrev pub is_running : Status → Bool
is_running Status.trialing = true
is_running Status.active = true
is_running _ = false

-- `sub.trial_end_date and sub.trial_end_date > now`.
abbrev pub ends_after : ℕ → Option ℕ → Bool
ends_after now none = false
ends_after now (some trial_end) = ltb now trial_end

abbrev pub in_trial : ℕ → Subscription → Bool
in_trial now s = is_running s.status && ends_after now s.trial_end_date

abbrev pub is_purchase : TransactionType → Bool
is_purchase TransactionType.plan_purchase = true
is_purchase TransactionType.one_time_purchase = true
is_purchase TransactionType.plan_upgrade = true
is_purchase _ = false

abbrev pub is_trial_grant : TransactionType → Bool
is_trial_grant TransactionType.trial_credit_grant = true
is_trial_grant _ = false

abbrev pub subscriptions_of : ℕ → Db → List Subscription
subscriptions_of user_id d = select (λ s. s.user_id == user_id) d.subscriptions

abbrev pub has_purchase : ℕ → Db → Bool
has_purchase user_id d =
    any (λ t. t.user_id == user_id && is_purchase t.transaction_type) d.transactions

abbrev pub has_payment : ℕ → Db → Bool
has_payment user_id d =
    any (λ t. t.user_id == user_id && not (is_trial_grant t.transaction_type)) d.transactions

module _ (now : ℕ) where
  unfoldable pub after_purchases : ℕ → Bool → Exec TrialEligibilityResponse
  after_purchases user_id true = pure (false, previous_purchase)
  after_purchases user_id false = do
    has_payment_history ← query (has_payment user_id)
    pure (if has_payment_history then (false, payment_history) else (true, eligible))

  unfoldable pub after_subscriptions : ℕ → Bool → Exec TrialEligibilityResponse
  unfolding after_purchases
  after_subscriptions user_id true = pure (false, currently_in_trial)
  after_subscriptions user_id false = do
    has_previous_purchase ← query (has_purchase user_id)
    after_purchases user_id has_previous_purchase

  unfoldable pub default_eligibility : ℕ → Exec TrialEligibilityResponse
  unfolding after_subscriptions
  default_eligibility user_id = do
    subscriptions ← query (subscriptions_of user_id)
    after_subscriptions user_id (any (in_trial now) subscriptions)

  unfoldable pub trial_test_eligibility : ℕ → Exec TrialEligibilityResponse
  trial_test_eligibility user_id = do
    subscriptions ← query (subscriptions_of user_id)
    call
    call
    pure
        (if any (in_trial now) subscriptions then (false, currently_in_trial) else (true, eligible))

-- Three calls whose results are not used.
unfoldable pub unchecked_eligibility : Exec TrialEligibilityResponse
unchecked_eligibility = do call; call; call; pure (true, eligible)

-- `await result.scalar_one_or_none()`: what SQLAlchemy returns there is no awaitable.
unfoldable pub purchase_test_eligibility : Exec TrialEligibilityResponse
purchase_test_eligibility = do call; raise type_error

module _ (now : ℕ) where
  unfoldable pub eligibility_for : Option TestCaller → ℕ → Exec TrialEligibilityResponse
  unfolding default_eligibility trial_test_eligibility unchecked_eligibility
      purchase_test_eligibility
  eligibility_for none user_id = default_eligibility now user_id
  eligibility_for (some of_eligible) user_id = unchecked_eligibility
  eligibility_for (some of_previous_purchase) user_id = purchase_test_eligibility
  eligibility_for (some of_payment_history) user_id = purchase_test_eligibility
  eligibility_for (some of_trial) user_id = trial_test_eligibility now user_id
  eligibility_for (some of_past_end) user_id = unchecked_eligibility

  unfoldable pub get_trial_eligibility : Option TestCaller → User → Exec TrialEligibilityResponse
  unfolding eligibility_for
  get_trial_eligibility caller user =
      if user.has_consumed_initial_trial
      then pure (false, trial_consumed)
      else eligibility_for caller user.id
