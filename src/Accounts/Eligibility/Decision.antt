-- ===== src/Accounts/Eligibility/Decision.antt =====
-- What `get_trial_eligibility` decides outside tests, where the calls of the database succeed.
use fastapi_auth_service.Prelude.{ℕ, Bool, true, false, any, if◌then◌else◌}
use fastapi_auth_service.Db.Schema.{Db, User}
use fastapi_auth_service.Accounts.Eligibility.{
  TrialEligibilityResponse, trial_consumed, currently_in_trial, previous_purchase, payment_history,
  eligible, in_trial, subscriptions_of, has_purchase, has_payment,
}

-- The reason, in the order of the checks.
abbrev pub reason : Bool → Bool → Bool → Bool → TrialEligibilityResponse
reason consumed trial bought paid =
    if consumed
    then (false, trial_consumed)
    else if trial
    then (false, currently_in_trial)
    else if bought
    then (false, previous_purchase)
    else if paid
    then (false, payment_history)
    else (true, eligible)

abbrev pub decision : ℕ → User → Db → TrialEligibilityResponse
decision now u d =
    reason u.has_consumed_initial_trial (any (in_trial now) (subscriptions_of u.id d))
      (has_purchase u.id d) (has_payment u.id d)
