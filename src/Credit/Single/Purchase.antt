-- ===== src/Credit/Single/Purchase.antt =====
-- `purchase_plan` and the active subscriptions of its user, on every path.
use fastapi_auth_service.Prelude.{
  ℕ, ◌≡◌, refl, sym, ◌∙◌, Bool, false, Option, none, some, [], ◌∷◌, ◌==◌, arith, Bool-cases, inl,
  inr, ==_iff,
}
use fastapi_auth_service.Prelude.Int.{ℤ}
use fastapi_auth_service.Db.Schema.{
  Text, DateTime, Db, User, Plan, Subscription, Status, Description,
}
use fastapi_auth_service.Db.Tables.{set_subscription, add_subscription}
use fastapi_auth_service.Db.Session.{Exn, http, query, modify, lift, gets}
use fastapi_auth_service.Db.Ensures.{
  Ensures, Keeps, Anything, Ensures-bind, Ensures-query, Ensures-scalar, Ensures-modify,
  Ensures-commit, Ensures-pure, Ensures-lift, Ensures-gets, Ensures-raise,
}
use fastapi_auth_service.Db.Keeps.{keeps_rules, Keeps-modify, Keeps-bind, Keeps-try}
use fastapi_auth_service.Credit.Plans.{get_plan_by_id, get_active_subscription}
use fastapi_auth_service.Credit.Purchase.{
  notify_found, send_email_notification, deactivate_existing, new_subscription, create_subscription,
  mark_payment_issue, credit_plan, purchase_plan,
}
use fastapi_auth_service.Credit.Ledger.Service.{db_error_handler-Ensures}
use fastapi_auth_service.Credit.Writes.{EntryWrites}
use fastapi_auth_service.Credit.Writes.Balances.{adds_entry}
use fastapi_auth_service.Credit.Single.{
  active, IsSingle, ActivatesNone, length-active-update, length-active-append, active-update_only,
}

instance single_entry_writes : EntryWrites IsSingle
single_entry_writes = record {
  credit = λ c d h. record { for_user = h.for_user };
  entry = λ t u f d other h. record { for_user = h.for_user };
}

set_subscription-IsSingle :
    (k : ℕ) (f : Subscription → Subscription) (d : Db)
    → ActivatesNone f
    → IsSingle d
    → IsSingle (set_subscription k f d)
unfolding set_subscription
set_subscription-IsSingle k f d h single = record {
  for_user = λ u. omega (arith, single.for_user u, length-active-update u k f d.subscriptions h);
}

-- What the look-up of the active subscription has found.
abbrev FoundActive : ℕ → Option Subscription → Db → Type 0
FoundActive u none d = active u d.subscriptions ≡ []
FoundActive u (some s) d = active u d.subscriptions ≡ s ∷ []

get_active_subscription-Ensures :
    (u : ℕ) → Ensures IsSingle Anything (get_active_subscription u) (λ o d. FoundActive u o d)
unfolding get_active_subscription
get_active_subscription-Ensures u = Ensures-bind (query _) _ (Ensures-query _) λ rows.
    Ensures-scalar {Q = λ o d. FoundActive u o d} rows (λ d h r e. sym r.1 ∙ e)
      (λ s d h r e. sym r.1 ∙ e)

replaced : Subscription → Subscription
replaced r = record r { is_active = false; status = Status.replaced }

deactivate_existing-Ensures :
    (u : ℕ) (o : Option Subscription)
    → Ensures IsSingle
        (FoundActive u o)
        (deactivate_existing o)
        (λ _ d. active u d.subscriptions ≡ [])
unfolding deactivate_existing set_subscription
deactivate_existing-Ensures u none = Ensures-pure tt (λ d h r. r)
deactivate_existing-Ensures u (some s) =
    Ensures-bind (modify _) _
      (Ensures-modify {Q = λ d. active u d.subscriptions ≡ []} _ (λ d h r. (
        set_subscription-IsSingle s.id _ d
            (record { owner = λ x. refl; active = λ x e. absurd (cc e) }) h,
        active-update_only u _ d.subscriptions s
            (record { owner = λ x. refl; inactive = λ x. refl }) r,
      )))
      λ _. Ensures-commit

add_subscription-IsSingle :
    (s : Subscription) (d : Db)
    → active s.user_id d.subscriptions ≡ []
    → IsSingle d
    → IsSingle (add_subscription s d)
add_subscription-IsSingle s d alone h = record {
  for_user = λ u. elim (Bool-cases (s.user_id == u)) [
    | inl e ↦
        rw (length-active-append u d.subscriptions s, sym ((==_iff s.user_id u).0 e), alone)
          (ground arith)
    | inr e ↦ rw (length-active-append u d.subscriptions s) (ground (arith, h.for_user u))
  ];
}

module _ (now : DateTime) (u key : ℕ) (stripe_id : Option Text) where
  create_subscription-Ensures :
      (plan : Option Plan) → Keeps IsSingle (create_subscription now u key stripe_id plan)
  unfolding create_subscription new_subscription
  create_subscription-Ensures none = Ensures-raise (http 404)
  create_subscription-Ensures (some plan) =
      Ensures-bind _ _ (get_active_subscription-Ensures u) λ existing.
        Ensures-bind _ _ (deactivate_existing-Ensures u existing) λ _.
          Ensures-bind (lift _) _
            (Ensures-lift {Q = λ _ d. active u d.subscriptions ≡ []} _ (λ a d h r e. r))
            λ renewal_date. Ensures-bind (gets _) _ (Ensures-gets _) λ id.
              Ensures-bind (modify _) _
                (Ensures-modify {Q = λ _. Unit} _
                  (λ d h r. (add_subscription-IsSingle _ d r.0 h, tt)))
                λ _. search keeps_rules

  mark_payment_issue-Keeps :
      {A : Type 0} (id : ℕ) (e : Exn) → Keeps IsSingle (mark_payment_issue {A = A} id e)
  unfolding mark_payment_issue
  mark_payment_issue-Keeps id e =
      Ensures-bind (modify _) _
        (Keeps-modify _ (λ d h.
          set_subscription-IsSingle id _ d (record { owner = λ x. refl; active = λ x a. a }) h))
        λ _. search keeps_rules

notify_found-Keeps : (o : Option User) → Keeps IsSingle (notify_found o)
unfolding notify_found
notify_found-Keeps none = search keeps_rules
notify_found-Keeps (some r) = search keeps_rules

send_email_notification-Keeps : (u : ℕ) → Keeps IsSingle (send_email_notification u)
unfolding send_email_notification
send_email_notification-Keeps u = search (keeps_rules, notify_found-Keeps)

module _ (test : Text → Bool) (now : DateTime) (uuid : Text) where
  credit_plan-Keeps :
      (u key : ℕ) (reference_id : Option Text) (description : Option Description) (mail : Bool)
      (amount : Option ℤ) (plan : Plan) (s : Subscription)
      → Keeps IsSingle (credit_plan test now uuid u key reference_id description mail amount plan s)
  unfolding credit_plan
  credit_plan-Keeps u key reference_id description mail amount plan s =
      Keeps-bind _ _
        (Keeps-try _ _ (adds_entry test now u _ _ _ _ _ _ _ tt)
          (mark_payment_issue-Keeps now u key none s.id))
        λ t. search (keeps_rules, send_email_notification-Keeps)

  get_plan-Keeps : (key : ℕ) → Keeps IsSingle (get_plan_by_id key)
  unfolding get_plan_by_id
  get_plan-Keeps key = search keeps_rules

  pub purchase_plan-IsSingle :
      (u key : ℕ) (reference_id : Option Text) (description : Option Description) (mail : Bool)
      (stripe_id : Option Text) (amount : Option ℤ)
      → Keeps IsSingle
          (purchase_plan test now uuid u key reference_id description mail stripe_id amount)
  unfolding purchase_plan
  purchase_plan-IsSingle u key reference_id description mail stripe_id amount =
      db_error_handler-Ensures _ (
        Keeps-bind _ _
          (Keeps-try _ _
            (Keeps-bind _ _ (get_plan-Keeps key)
              (λ plan. create_subscription-Ensures now u key stripe_id plan))
            (λ e. search keeps_rules))
          λ created.
            credit_plan-Keeps u key reference_id description mail amount created.0 created.1)
