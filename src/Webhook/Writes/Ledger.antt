-- ===== src/Webhook/Writes/Ledger.antt =====
-- The writes of the webhook handlers to the ledger; the trial's grant is the one that touches credits.
use fastapi_auth_service.Prelude.{
  ℕ, ◌≡◌, refl, sym, ap, Option, none, some, List, [], ◌∷◌, ◌==◌, select, head_option, Bool-cases,
  inl, inr,
}
use fastapi_auth_service.Prelude.Int.{ℤ, pos}
use fastapi_auth_service.Db.Schema.{DateTime, Db, User, UserCredit}
use fastapi_auth_service.Db.Tables.{set_user, set_subscription, set_account_status}
use fastapi_auth_service.Db.Session.{query, gets, modify, flush}
use fastapi_auth_service.Db.Ensures.{
  Ensures, Anything, Ensures-bind, Ensures-query, Ensures-gets, Ensures-modify, Ensures-flush,
  Ensures-pure, Ensures-publish, Ensures-weaken,
}
use fastapi_auth_service.Credit.Ledger.{IsBalanced}
use fastapi_auth_service.Credit.Ledger.Entries.{
  Adjusts, HasRow, HasRow-of_head, add_credit-IsBalanced, add_credit-HasRow, entry-IsBalanced,
}
use fastapi_auth_service.Credit.Ledger.Service.{FoundCredit}
use fastapi_auth_service.Webhook.Events.{SubscriptionData, Platform}
use fastapi_auth_service.Webhook.Trials.{
  grant_trial, credit_or_new, new_trial_credit, trial_grant, grant, start_trial,
}
use fastapi_auth_service.Webhook.Endpoint.{mark, is_processed}
use fastapi_auth_service.Webhook.Writes.{WebhookWrites}

grant-Adjusts :
    (p : Platform) (credits : ℕ) (now : DateTime) (x : ℤ) → Adjusts x (grant p credits now x)
grant-Adjusts p credits now x = record { balance = λ c. refl; owner = λ c. refl }

set_user-IsBalanced :
    (id : ℕ) (f : User → User) (d : Db) → IsBalanced d → IsBalanced (set_user id f d)
unfolding set_user
set_user-IsBalanced id f d h = record { for_user = h.for_user; one_row = h.one_row }

first_row :
    (u : ℕ) (a : Option UserCredit) (d : Db)
    → IsBalanced d
    → a ≡ head_option (select (λ c. c.user_id == u) d.credits)
    → FoundCredit u a d
first_row u none d h e = none_selected (select (λ c. c.user_id == u) d.credits) (sym e)
  where
    none_selected : (l : List UserCredit) → head_option l ≡ none → l ≡ []
    none_selected [] e = refl
    none_selected (x ∷ l) e = absurd (cc e)
first_row u (some c) d h e = HasRow-of_head u d h (sym e)

credit_or_new-Ensures :
    (p : Platform) (credits : ℕ) (now : DateTime) (u : ℕ) (found : Option UserCredit)
    → Ensures IsBalanced
        (FoundCredit u found)
        (credit_or_new p credits now u found)
        (λ c d. HasRow u d)
unfolding credit_or_new new_trial_credit
credit_or_new-Ensures p credits now u (some c) = Ensures-pure c (λ d h r. r)
credit_or_new-Ensures p credits now u none = Ensures-bind (gets _) _ (Ensures-gets _) λ id.
    Ensures-bind (modify _) _
      (Ensures-modify {Q = HasRow u} _
        (λ d h r. (add_credit-IsBalanced _ d refl r.0 h, add_credit-HasRow u _ d refl r.0)))
      λ _. Ensures-bind flush _ Ensures-flush λ _. Ensures-pure _ (λ d h r. r)

grant_trial-IsBalanced :
    (p : Platform) (credits : ℕ) (now : DateTime) (u : User) (e : SubscriptionData)
    → Ensures IsBalanced Anything (grant_trial p credits now u e) (λ _ _. Unit)
unfolding grant_trial trial_grant
grant_trial-IsBalanced p credits now u e = Ensures-bind (query _) _ (Ensures-query _) λ rows.
    Ensures-bind _ _
      (Ensures-weaken _ (credit_or_new-Ensures p credits now u.id (head_option rows))
        (λ d h r. first_row u.id (head_option rows) d h (ap head_option r.1)) (λ a d h q. q))
      λ credit. Ensures-bind (gets _) _ (Ensures-gets _) λ id.
        Ensures-bind (modify _) _
          (Ensures-modify {Q = λ _. Unit} _ (λ d h r. (
            set_user-IsBalanced u.id (start_trial p credits now) _ (
                entry-IsBalanced u.id (trial_grant p credits now u.id credit.id e.id id) d
                  (grant-Adjusts p credits now (pos credits)) r.0 refl refl h),
            tt,
          )))
          λ _. Ensures-publish _

instance pub ledger_webhook_writes : WebhookWrites IsBalanced
unfolding set_subscription set_account_status
ledger_webhook_writes = record {
  subscription = λ id f d h. record { for_user = h.for_user; one_row = h.one_row };
  new_subscription = λ s d h. record { for_user = h.for_user; one_row = h.one_row };
  customer = λ id customer d h. set_user-IsBalanced id _ d h;
  status = λ id status d h. set_user-IsBalanced id _ d h;
  processed = λ event_id type d h. mark_keeps event_id type d h;
  trial = λ p credits now u e.
      Ensures-weaken _ (grant_trial-IsBalanced p credits now u e) (λ d h r. tt) (λ a d h q. tt);
}
  where
    mark_keeps :
        (event_id : ℕ) (type : _) (d : Db) → IsBalanced d → IsBalanced (mark event_id type d)
    mark_keeps event_id type d h = elim (Bool-cases (is_processed event_id d)) [
      | inl e ↦ rw e h
      | inr e ↦ rw e (record { for_user = h.for_user; one_row = h.one_row })
    ]
