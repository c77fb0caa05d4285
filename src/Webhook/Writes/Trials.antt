-- ===== src/Webhook/Writes/Trials.antt =====
-- `handle_customer_subscription_created` and a database invariant. The trial is granted to the user
-- that the session has read.
use fastapi_auth_service.Prelude.{
  ℕ, ◌≡◌, sym, true, false, Option, none, some, List, head_option, select, ◌==◌, arith, [], ◌∷◌,
}
use mathlib.Core.Path.{subst}
use fastapi_auth_service.Db.Schema.{DateTime, Db, User}
use fastapi_auth_service.Db.Tables.{user_by_id}
use fastapi_auth_service.Db.Session.{query}
use fastapi_auth_service.Db.Ensures.{
  Ensures, Keeps, Anything, Ensures-bind, Ensures-if, Ensures-query, Ensures-pure, Ensures-weaken,
}
use fastapi_auth_service.Db.Keeps.{Keeps-pure}
use fastapi_auth_service.Webhook.Events.{SubscriptionData, Platform}
use fastapi_auth_service.Webhook.Users.{get_user}
use fastapi_auth_service.Webhook.Trials.{
  trial_of_user, trial_step, created_trial, check_card, merge, created_for,
  handle_customer_subscription_created, is_trialing,
}
use fastapi_auth_service.Webhook.Writes.{WebhookWrites}
use fastapi_auth_service.Webhook.Writes.Users.{user_rules}

-- The row that a look-up by primary key finds has that key.
pub user_by_id_self :
    (id : ℕ) (l : List User) {u : User}
    → head_option (select (λ r. r.id == id) l) ≡ some u
    → u.id ≡ id
user_by_id_self id [] h = absurd (cc h)
user_by_id_self id (x ∷ l) {u} h = ground (arith, user_by_id_self id l {u = u})

-- What the look-up of the user has found.
abbrev FoundUser : Option User → Db → Type 0
FoundUser none d = Unit
FoundUser (some u) d = user_by_id u.id d ≡ some u

look_up-found : (id : ℕ) (u : Option User) (d : Db) → u ≡ user_by_id id d → FoundUser u d
look_up-found id none d e = tt
look_up-found id (some u) d e =
    subst (λ k. user_by_id k d ≡ some u) (sym (user_by_id_self id d.users (sym e))) (sym e)

module _ {I : Db → Type 0} ⦃w : WebhookWrites I⦄ (p : Platform) (credits : ℕ) (now : DateTime) where
  trial_of_user-Keeps :
      (e : SubscriptionData) (u : User)
      → Ensures I (λ d. user_by_id u.id d ≡ some u) (trial_of_user p credits now e u) (λ _ _. Unit)
  unfolding trial_of_user
  trial_of_user-Keeps e u =
      Ensures-if u.has_consumed_initial_trial _ _
        (λ _.
          Ensures-weaken {P = Anything} {Q = λ _ _. Unit} _ (search user_rules) (λ d h r. tt)
            (λ a d h q. tt))
        (λ fresh_user.
          Ensures-weaken _ (w.trial p credits now u e) (λ d h r. (r, fresh_user)) (λ a d h q. tt))

  trial_step-Keeps :
      (e : SubscriptionData) (u : Option User)
      → Ensures I (FoundUser u) (trial_step p credits now e u) (λ _ _. Unit)
  unfolding trial_step
  trial_step-Keeps e none = Ensures-pure false (λ d h r. tt)
  trial_step-Keeps e (some u) =
      Ensures-bind _ _ (trial_of_user-Keeps e u) (λ _. Ensures-pure true (λ d h r. tt))

  created_trial-Keeps :
      (e : SubscriptionData) (user_id : ℕ) → Keeps I (created_trial p credits now e user_id)
  unfolding created_trial get_user
  created_trial-Keeps e user_id =
      Ensures-if (is_trialing e.status) _ _
        (λ _.
          Ensures-bind (query _) _
            (Ensures-weaken _ (Ensures-query (user_by_id user_id)) (λ d h r. r)
              (λ a d h q. look_up-found user_id a d q.1))
            (trial_step-Keeps e))
        (λ _. Ensures-pure true (λ d h r. tt))

  check_card-Keeps : (e : SubscriptionData) → Keeps I (check_card p credits now e)
  unfolding check_card
  check_card-Keeps e = search user_rules

  merge-Keeps : Keeps I (merge p credits now)
  unfolding merge
  merge-Keeps = search user_rules

  created_for-Keeps :
      (e : SubscriptionData) (user_id : Option ℕ) → Keeps I (created_for p credits now e user_id)
  unfolding created_for
  created_for-Keeps e none = Keeps-pure tt
  created_for-Keeps e (some user_id) =
      search (user_rules, check_card-Keeps, merge-Keeps, created_trial-Keeps) depth 12

  pub handle_customer_subscription_created-Keeps :
      (e : SubscriptionData) → Keeps I (handle_customer_subscription_created p credits now e)
  unfolding handle_customer_subscription_created
  handle_customer_subscription_created-Keeps e = search (user_rules, created_for-Keeps)
