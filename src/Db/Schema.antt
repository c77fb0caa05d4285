-- ===== src/Db/Schema.antt =====
-- app/models: the tables, a record for each row. Texts that the program only compares (e-mail
-- addresses, tokens, hashes, Stripe identifiers) are numbers, and 0 is the empty text. An amount is
-- an integer count of cents; an instant is a number of seconds, or a calendar record where the
-- program reads the calendar's fields.
use fastapi_auth_service.Prelude.{
  ℕ, Bool, false, not, ◌&&◌, Option, none, some, List, map, ◌==◌, all, unique, unique_set, is_some,
}
use fastapi_auth_service.Prelude.Int.{ℤ}

abbrev pub Text : Type 0
Text = ℕ

-- `if text:`, for an optional text.
abbrev pub truthy : Option Text → Bool
truthy none = false
truthy (some t) = not (t == 0)

pub record DateTime : Type 0 where
  pub year : ℕ
  pub month : ℕ
  pub day : ℕ
  pub time : ℕ

pub data AuthType : Type 0 where
  password google both : AuthType

-- `users.account_status`; `other` is any text that the code does not name.
pub data AccountStatus : Type 0 where
  active trialing frozen canceled : AccountStatus
  other : Text → AccountStatus

-- `subscriptions.status`, Stripe's statuses and the service's own.
pub data Status : Type 0 where
  active trialing past_due canceled unpaid incomplete inactive replaced payment_issue : Status
  other : Text → Status

pub data TransactionType : Type 0 where
  credit_added credit_used plan_purchase plan_renewal plan_upgrade : TransactionType
  one_time_purchase trial_credit_grant : TransactionType

-- The texts that the services write into `credit_transactions.description`.
pub data Description : Type 0 where
  supplied : Text → Description
  one_time_purchase_of : ℤ → Description
  verified_one_time_purchase verified_subscription : Text → Description
  purchase_of_plan renewal_of_plan : Text → Description
  initial_trial_credits : ℤ → Description

pub record User : Type 0 where
  pub id : ℕ
  pub email : Text
  pub hashed_password : Option Text
  pub google_id : Option Text
  pub auth_type : AuthType
  pub is_admin : Bool
  pub is_verified : Bool
  pub stripe_customer_id : Option Text
  pub account_status : AccountStatus
  pub has_consumed_initial_trial : Bool

-- `PasswordResetToken` and `EmailVerificationToken` have the same columns.
pub record Token : Type 0 where
  pub token : Text
  pub user_id : ℕ
  pub expires_at : ℕ
  pub used : Bool

pub record EmailChangeRequest : Type 0 where
  pub id : ℕ
  pub user_id : ℕ
  pub current_email : Text
  pub new_email : Text
  pub token : Text
  pub expires_at : ℕ
  pub completed : Bool

pub record UserCredit : Type 0 where
  pub id : ℕ
  pub user_id : ℕ
  pub balance : ℤ
  pub updated_at : DateTime

pub record CreditTransaction : Type 0 where
  pub id : ℕ
  pub user_id : ℕ
  pub user_credit_id : ℕ
  pub amount : ℤ
  pub transaction_type : TransactionType
  pub reference_id : Option Text
  pub description : Option Description
  pub plan_id : Option ℕ
  pub subscription_id : Option ℕ
  pub created_at : DateTime

pub record Plan : Type 0 where
  pub id : ℕ
  pub name : Text
  pub credit_amount : ℤ
  pub price : ℤ
  pub is_active : Bool
  pub stripe_price_id : Option Text
  pub is_limited_free : Bool

-- `plan_id` and `renewal_date` are columns that may not be null; a row that has not been flushed
-- may lack them.
pub record Subscription : Type 0 where
  pub id : ℕ
  pub user_id : ℕ
  pub plan_id : Option ℕ
  pub renewal_date : Option DateTime
  pub is_active : Bool
  pub auto_renew : Bool
  pub last_renewal_date : Option DateTime
  pub status : Status
  pub stripe_subscription_id : Option Text
  pub stripe_customer_id : Option Text
  pub stripe_price_id : Option Text
  pub trial_end_date : Option ℕ
  pub current_period_start : Option ℕ
  pub current_period_end : Option ℕ
  pub cancel_at_period_end : Bool
  pub canceled_at : Option ℕ

-- The Stripe event types that the endpoint dispatches on.
pub data EventType : Type 0 where
  checkout_session_completed customer_subscription_created : EventType
  customer_subscription_updated customer_subscription_deleted : EventType
  invoice_payment_succeeded invoice_payment_failed : EventType
  other : Text → EventType

pub record ProcessedStripeEvent : Type 0 where
  pub stripe_event_id : Text
  pub event_type : EventType

-- The tables, each in the order of insertion; `next_id` stands for the sequences of primary keys.
pub record Db : Type 0 where
  pub users : List User
  pub verification_tokens : List Token
  pub reset_tokens : List Token
  pub email_change_requests : List EmailChangeRequest
  pub credits : List UserCredit
  pub transactions : List CreditTransaction
  pub plans : List Plan
  pub subscriptions : List Subscription
  pub processed_events : List ProcessedStripeEvent
  pub next_id : ℕ

-- The columns of `subscriptions` that are declared `nullable=False` and have no default.
abbrev pub is_complete : Subscription → Bool
is_complete s = is_some s.plan_id && is_some s.renewal_date

-- The unique and not-null constraints that the database checks when it is written to.
unfoldable pub constraints : Db → Bool
constraints d =
    unique (map (λ u. u.email) d.users)
    && unique_set (map (λ u. u.google_id) d.users)
    && unique (map (λ c. c.user_id) d.credits)
    && unique (map (λ t. t.token) d.verification_tokens)
    && unique (map (λ t. t.token) d.reset_tokens)
    && unique (map (λ r. r.token) d.email_change_requests)
    && unique (map (λ e. e.stripe_event_id) d.processed_events)
    && all is_complete d.subscriptions
