-- ===== src/Trial/Service.antt =====
-- The writes of the credit service and of the webhooks to the two sides of `IsGrantedOnce`.
use fastapi_auth_service.Prelude.{
  ℕ, ◌≡◌, refl, Option, none, some, head_option, is_some, Bool-cases, inl, inr,
}
use fastapi_auth_service.Prelude.Int.{pos}
use fastapi_auth_service.Db.Schema.{Text, DateTime, Db, User, UserCredit, EventType}
use fastapi_auth_service.Db.Tables.{set_subscription, set_account_status}
use fastapi_auth_service.Db.Session.{query, gets, modify, flush}
use fastapi_auth_service.Db.Ensures.{
  Ensures, Ensures-bind, Ensures-query, Ensures-gets, Ensures-modify, Ensures-flush, Ensures-pure,
  Ensures-publish, Ensures-weaken,
}
use fastapi_auth_service.Credit.Writes.{CreditWrites, BalanceWrites, EntryWrites}
use fastapi_auth_service.Credit.Writes.Balances.{entry_balance_writes, adds_entry}
use fastapi_auth_service.Webhook.Events.{SubscriptionData, Platform}
use fastapi_auth_service.Webhook.Users.{keep_customer}
use fastapi_auth_service.Webhook.Trials.{
  grant_trial, credit_or_new, new_trial_credit, trial_grant, grant, start_trial,
}
use fastapi_auth_service.Webhook.Endpoint.{mark, is_processed}
use fastapi_auth_service.Webhook.Writes.{WebhookWrites, HasNoTrial}
use fastapi_auth_service.Trial.{IsGrantedOnce}
use fastapi_auth_service.Trial.Rows.{
  KeepsFlag, SetsFlag, set_user-IsGrantedOnce, entry-IsGrantedOnce, grant-IsGrantedOnce,
}

instance trial_entry_writes : EntryWrites IsGrantedOnce
trial_entry_writes = record {
  credit = λ c d h. record { for_user = h.for_user };
  entry = entry-IsGrantedOnce;
}

instance pub trial_balance_writes : BalanceWrites IsGrantedOnce
trial_balance_writes = entry_balance_writes

instance pub trial_credit_writes : CreditWrites IsGrantedOnce
unfolding set_subscription
trial_credit_writes = record {
  subscription = λ id f d h. record { for_user = h.for_user };
  new_subscription = λ s d h. record { for_user = h.for_user };
  adds = adds_entry;
}

start_trial-SetsFlag :
    (p : Platform) (credits : ℕ) (now : DateTime) → SetsFlag (start_trial p credits now)
start_trial-SetsFlag p credits now = record { id = λ u. refl; flag = λ u. refl }

keep_customer-KeepsFlag : (customer : Option Text) → KeepsFlag (keep_customer customer)
keep_customer-KeepsFlag customer = record { id = same_id; flag = same_flag }
  where
    same_id : (u : User) → (keep_customer customer u).id ≡ u.id
    same_id u = elim (Bool-cases (is_some u.stripe_customer_id)) [
      | inl e ↦ rw e refl
      | inr e ↦ rw e refl
    ]

    same_flag :
        (u : User)
        → (keep_customer customer u).has_consumed_initial_trial ≡ u.has_consumed_initial_trial
    same_flag u = elim (Bool-cases (is_some u.stripe_customer_id)) [
      | inl e ↦ rw e refl
      | inr e ↦ rw e refl
    ]

credit_or_new-IsGrantedOnce :
    (p : Platform) (credits : ℕ) (now : DateTime) (u : User) (found : Option UserCredit)
    → Ensures IsGrantedOnce
        (HasNoTrial u)
        (credit_or_new p credits now u.id found)
        (λ c d. HasNoTrial u d)
unfolding credit_or_new new_trial_credit
credit_or_new-IsGrantedOnce p credits now u (some c) = Ensures-pure c (λ d h r. r)
credit_or_new-IsGrantedOnce p credits now u none = Ensures-bind (gets _) _ (Ensures-gets _) λ id.
    Ensures-bind (modify _) _
      (Ensures-modify {Q = HasNoTrial u} _ (λ d h r. (record { for_user = h.for_user }, r.0)))
      λ _. Ensures-bind flush _ Ensures-flush λ _. Ensures-pure _ (λ d h r. r)

grant_trial-IsGrantedOnce :
    (p : Platform) (credits : ℕ) (now : DateTime) (u : User) (e : SubscriptionData)
    → Ensures IsGrantedOnce (HasNoTrial u) (grant_trial p credits now u e) (λ _ _. Unit)
unfolding grant_trial trial_grant
grant_trial-IsGrantedOnce p credits now u e = Ensures-bind (query _) _ (Ensures-query _) λ rows.
    Ensures-bind _ _
      (Ensures-weaken _ (credit_or_new-IsGrantedOnce p credits now u (head_option rows))
        (λ d h r. r.0) (λ a d h q. q))
      λ credit. Ensures-bind (gets _) _ (Ensures-gets _) λ id.
        Ensures-bind (modify _) _
          (Ensures-modify {Q = λ _. Unit} _ (λ d h r. (
            grant-IsGrantedOnce u.id u.id (trial_grant p credits now u.id credit.id e.id id)
                (start_trial p credits now) (grant p credits now (pos credits)) d {u = u}
                (start_trial-SetsFlag p credits now) refl r.0.0 r.0.1 h,
            tt,
          )))
          λ _. Ensures-publish _

instance pub trial_webhook_writes : WebhookWrites IsGrantedOnce
unfolding set_subscription set_account_status
trial_webhook_writes = record {
  subscription = λ id f d h. record { for_user = h.for_user };
  new_subscription = λ s d h. record { for_user = h.for_user };
  customer = λ id customer d h. set_user-IsGrantedOnce id _ d (keep_customer-KeepsFlag customer) h;
  status = λ id status d h.
      set_user-IsGrantedOnce id _ d (record { id = λ u. refl; flag = λ u. refl }) h;
  processed = mark_keeps;
  trial = grant_trial-IsGrantedOnce;
}
  where
    mark_keeps :
        (event_id : Text) (type : EventType) (d : Db)
        → IsGrantedOnce d
        → IsGrantedOnce (mark event_id type d)
    mark_keeps event_id type d h = elim (Bool-cases (is_processed event_id d)) [
      | inl e ↦ rw e h
      | inr e ↦ rw e (record { for_user = h.for_user })
    ]
