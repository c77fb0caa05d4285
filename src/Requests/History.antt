-- ===== src/Requests/History.antt =====
-- The history that the database keeps: transactions, processed events, and consumed trials.
use fastapi_auth_service.Prelude.{
  ℕ, not, ◌||◌, ◌≡◌, refl, sym, ap, ◌∙◌, Bool, true, false, Option, none, some, List, [], ◌∷◌, ◌++◌,
  ◌==◌, update_where, is_some, arith, Bool-cases, inl, inr, append_assoc, append-nil,
}
use fastapi_auth_service.Prelude.Int.{pos}
use fastapi_auth_service.Db.Schema.{
  Text, DateTime, Db, User, UserCredit, CreditTransaction, Subscription, EventType,
  ProcessedStripeEvent,
}
use fastapi_auth_service.Db.Tables.{
  set_user, set_subscription, set_account_status, add_subscription, add_credit, add_transaction,
  set_credit,
}
use fastapi_auth_service.Db.Session.{modify}
use fastapi_auth_service.Db.Ensures.{Keeps, Ensures-weaken}
use fastapi_auth_service.Db.Keeps.{keeps_rules, Keeps-modify}
use fastapi_auth_service.Credit.Writes.{CreditWrites, BalanceWrites, EntryWrites}
use fastapi_auth_service.Credit.Writes.Balances.{entry_balance_writes, adds_entry}
use fastapi_auth_service.Webhook.Events.{SubscriptionData, Platform}
use fastapi_auth_service.Webhook.Users.{keep_customer}
use fastapi_auth_service.Webhook.Trials.{
  grant_trial, credit_or_new, new_trial_credit, grant, start_trial,
}
use fastapi_auth_service.Webhook.Endpoint.{mark, is_processed}
use fastapi_auth_service.Webhook.Writes.{WebhookWrites}
use fastapi_auth_service.Trial.{has_consumed}
use fastapi_auth_service.Requests.{Incoming, serve_all}
use fastapi_auth_service.Requests.Invariant.{serve_all-Keeps}

implies_refl : (a : Bool) → (not a || a) ≡ true
implies_refl true = refl
implies_refl false = refl

implies_trans : (a b c : Bool) → (not a || b) ≡ true → (b ≡ true → c ≡ true) → (not a || c) ≡ true
implies_trans true b c h k = k h
implies_trans false b c h k = refl

-- `d` is a later state of `before`.
pub record IsLater (before d : Db) : Type 0 where
  pub recorded : List CreditTransaction
  pub transactions : d.transactions ≡ before.transactions ++ recorded
  pub marked : List ProcessedStripeEvent
  pub processed : d.processed_events ≡ before.processed_events ++ marked
  pub consumed : (u : ℕ) → (not (has_consumed u before.users) || has_consumed u d.users) ≡ true

pub IsLater-refl : (d : Db) → IsLater d d
IsLater-refl d = record {
  recorded = [];
  transactions = sym (append-nil d.transactions);
  marked = [];
  processed = sym (append-nil d.processed_events);
  consumed = λ u. implies_refl (has_consumed u d.users);
}

-- A write to users that leaves their keys and unsets no flag.
record KeepsConsumed (f : User → User) : Type 0 where
  id : (u : User) → (f u).id ≡ u.id
  flag : (u : User) → u.has_consumed_initial_trial ≡ true → (f u).has_consumed_initial_trial ≡ true

has_consumed-update :
    (u k : ℕ) (f : User → User) (rs : List User)
    → KeepsConsumed f
    → has_consumed u rs ≡ true
    → has_consumed u (update_where (λ r. r.id == k) f rs) ≡ true
has_consumed-update u k f [] keeps h = h
has_consumed-update u k f (r ∷ rs) keeps h =
    grind (arith, has_consumed-update u k f rs keeps, keeps.id r, keeps.flag r)

module _ {before : Db} where
  set_user-IsLater :
      (k : ℕ) (f : User → User) (d : Db)
      → KeepsConsumed f
      → IsLater before d
      → IsLater before (set_user k f d)
  unfolding set_user
  set_user-IsLater k f d keeps h = record {
    recorded = h.recorded;
    transactions = h.transactions;
    marked = h.marked;
    processed = h.processed;
    consumed = λ u.
        implies_trans (has_consumed u before.users) (has_consumed u d.users) _ (h.consumed u)
          (has_consumed-update u k f d.users keeps);
  }

  entry-IsLater :
      (t : CreditTransaction) (u : ℕ) (f : UserCredit → UserCredit) (d : Db)
      → IsLater before d
      → IsLater before (add_transaction t (set_credit u f d))
  entry-IsLater t u f d h = record {
    recorded = h.recorded ++ t ∷ [];
    transactions =
        ap (λ l. l ++ t ∷ []) h.transactions ∙ append_assoc before.transactions h.recorded (t ∷ []);
    marked = h.marked;
    processed = h.processed;
    consumed = h.consumed;
  }

  mark-IsLater :
      (id : Text) (type : EventType) (d : Db) → IsLater before d → IsLater before (mark id type d)
  mark-IsLater id type d h = elim (Bool-cases (is_processed id d)) [
    | inl e ↦ rw e h
    | inr e ↦ rw e (record {
      recorded = h.recorded;
      transactions = h.transactions;
      marked = h.marked ++ (record { stripe_event_id = id; event_type = type }) ∷ [];
      processed =
          ap (λ l. l ++ (record { stripe_event_id = id; event_type = type }) ∷ []) h.processed
          ∙ append_assoc before.processed_events h.marked _;
      consumed = h.consumed;
    })
  ]

keep_customer-KeepsConsumed : (customer : Option Text) → KeepsConsumed (keep_customer customer)
keep_customer-KeepsConsumed customer = record { id = same_id; flag = same_flag }
  where
    same_id : (u : User) → (keep_customer customer u).id ≡ u.id
    same_id u = elim (Bool-cases (is_some u.stripe_customer_id)) [
      | inl e ↦ rw e refl
      | inr e ↦ rw e refl
    ]

    same_flag :
        (u : User)
        → u.has_consumed_initial_trial ≡ true
        → (keep_customer customer u).has_consumed_initial_trial ≡ true
    same_flag u h = elim (Bool-cases (is_some u.stripe_customer_id)) [
      | inl e ↦ rw e h
      | inr e ↦ rw e h
    ]

instance later_entry_writes : {before : Db} → EntryWrites (IsLater before)
later_entry_writes = record {
  credit = λ c d h. record {
    recorded = h.recorded;
    transactions = h.transactions;
    marked = h.marked;
    processed = h.processed;
    consumed = h.consumed;
  };
  entry = λ t u f d other h. entry-IsLater t u f d h;
}

instance later_balance_writes : {before : Db} → BalanceWrites (IsLater before)
later_balance_writes = entry_balance_writes

set_subscription-IsLater :
    {before : Db} (id : ℕ) (f : Subscription → Subscription) (d : Db)
    → IsLater before d
    → IsLater before (set_subscription id f d)
unfolding set_subscription
set_subscription-IsLater id f d h = record {
  recorded = h.recorded;
  transactions = h.transactions;
  marked = h.marked;
  processed = h.processed;
  consumed = h.consumed;
}

add_subscription-IsLater :
    {before : Db} (s : Subscription) (d : Db)
    → IsLater before d
    → IsLater before (add_subscription s d)
add_subscription-IsLater s d h = record {
  recorded = h.recorded;
  transactions = h.transactions;
  marked = h.marked;
  processed = h.processed;
  consumed = h.consumed;
}

instance later_credit_writes : {before : Db} → CreditWrites (IsLater before)
later_credit_writes = record {
  subscription = set_subscription-IsLater;
  new_subscription = add_subscription-IsLater;
  adds = adds_entry;
}

module _ {before : Db} (p : Platform) (credits : ℕ) (now : DateTime) where
  add_credit-Keeps : (c : UserCredit) → Keeps (IsLater before) (modify (add_credit c))
  add_credit-Keeps c = Keeps-modify _ (later_entry_writes.credit c)

  credit_or_new-Keeps :
      (u : ℕ) (found : Option UserCredit)
      → Keeps (IsLater before) (credit_or_new p credits now u found)
  unfolding credit_or_new new_trial_credit
  credit_or_new-Keeps u none = search (keeps_rules, add_credit-Keeps) depth 8
  credit_or_new-Keeps u (some c) = search keeps_rules

  grant-Keeps :
      (u : User) (t : CreditTransaction)
      → Keeps (IsLater before) (
          modify (λ d.
            set_user u.id
              (start_trial p credits now)
              (add_transaction t (set_credit u.id (grant p credits now (pos credits)) d))))
  grant-Keeps u t = Keeps-modify _ (λ d h.
      set_user-IsLater u.id _ _ (record { id = λ r. refl; flag = λ r e. refl })
        (entry-IsLater t u.id _ d h))

  grant_trial-Keeps :
      (u : User) (e : SubscriptionData) → Keeps (IsLater before) (grant_trial p credits now u e)
  unfolding grant_trial
  grant_trial-Keeps u e = search (keeps_rules, credit_or_new-Keeps, grant-Keeps) depth 8

instance later_webhook_writes : {before : Db} → WebhookWrites (IsLater before)
unfolding set_account_status
later_webhook_writes = record {
  subscription = set_subscription-IsLater;
  new_subscription = add_subscription-IsLater;
  customer = λ id customer d h. set_user-IsLater id _ d (keep_customer-KeepsConsumed customer) h;
  status = λ id status d h. set_user-IsLater id _ d (record { id = λ u. refl; flag = λ u e. e }) h;
  processed = mark-IsLater;
  trial = λ p credits now u e.
      Ensures-weaken _ (grant_trial-Keeps p credits now u e) (λ d h r. tt) (λ a d h q. tt);
}

-- Any sequence of requests only adds to the end of the recorded transactions and of the processed
-- Stripe events, and leaves the trial consumed of every user of whom it was.
pub serve_all-IsLater : (rs : List Incoming) (d : Db) → IsLater d (serve_all rs d)
serve_all-IsLater rs d = serve_all-Keeps (IsLater d) rs d (IsLater-refl d)
