-- ===== src/Credit/Subscriptions/Cancel.antt =====
-- What `cancel_subscription` does on each branch, where Stripe is left out and the calls of the
-- database succeed.
use fastapi_auth_service.Prelude.{
  ℕ, ◌≡◌, refl, ap, ◌∙◌, Bool, true, false, not, ◌&&◌, ◌||◌, Option, none, some, List, [], ◌∷◌,
  ◌==◌, select, all, update_where, if◌then◌else◌, arith, Bool-cases, inl, inr,
}
use fastapi_auth_service.Db.Schema.{Text, Db, Plan, Subscription, Status, constraints, is_complete}
use fastapi_auth_service.Db.Tables.{set_subscription}
use fastapi_auth_service.Db.Session.{
  http, Result, ok, err, Session, fresh, pure, raise, handle, try_except, ◌>>=◌,
}
use fastapi_auth_service.Stripe.{StripeApi}
use fastapi_auth_service.Credit.Account.{db_error_handler, rollback_and_raise}
use fastapi_auth_service.Credit.Plans.{get_plan_by_id, get_subscription_by_id}
use fastapi_auth_service.Credit.Subscriptions.{
  plan_of, is_canceled, notify_canceled, cancel_in_stripe_if, cancel_active, cancel_found,
  cancel_user_subscription, Cancellation, not_found, internal_error, already_canceled, cancelled,
  give_up, owned_by,
}

abbrev pub cancel_row : Subscription → Subscription
cancel_row r = record r { is_active = false; status = Status.canceled; auto_renew = false }

all-cancel :
    (id : ℕ) (l : List Subscription)
    → all is_complete (update_where (λ s. s.id == id) cancel_row l) ≡ all is_complete l
all-cancel id [] = refl
all-cancel id (s ∷ l) = grind (arith, all-cancel id l)

constraints-cancel :
    (id : ℕ) (d : Db) → constraints (set_subscription id cancel_row d) ≡ constraints d
unfolding constraints set_subscription
constraints-cancel id d = rw (all-cancel id d.subscriptions) refl

cancel_in_stripe_if-unwanted :
    (api : StripeApi) (t : Option Text) → cancel_in_stripe_if api false t ≡ pure false
unfolding cancel_in_stripe_if
cancel_in_stripe_if-unwanted api none = refl
cancel_in_stripe_if-unwanted api (some t) = refl

abbrev pub is_repeated : List Plan → Bool
is_repeated (p ∷ q ∷ ps) = true
is_repeated _ = false

-- Whose subscription may be canceled.
abbrev pub permits : Option ℕ → Subscription → Bool
permits none s = true
permits (some user) s = s.user_id == user

-- What is over stays as it is.
abbrev pub is_over : Status → Bool → Bool
is_over Status.canceled active = true
is_over _ active = not active

is_over-canceled : (t : Status) (active : Bool) → (is_canceled t || not active) ≡ is_over t active
is_over-canceled Status.canceled active = refl
is_over-canceled t active = refl

-- A subscription that may be canceled and is not over. Two active plans with its plan's key raise.
abbrev pub cancelled_unless : Bool → Subscription → Db → Result Cancellation × Session
cancelled_unless true s d = (ok internal_error, fresh d)
cancelled_unless false s d =
    (ok (cancelled s.renewal_date false), fresh (set_subscription s.id cancel_row d))

-- What the rows with the subscription's key come to.
abbrev pub cancellation : Option ℕ → Db → List Subscription → Result Cancellation × Session
cancellation user d [] = (ok not_found, fresh d)
cancellation user d (s ∷ []) =
    if permits user s
    then (if is_over s.status s.is_active
        then (ok already_canceled, fresh d)
        else cancelled_unless
            (is_repeated (select (λ q. q.id == plan_of s.plan_id && q.is_active) d.plans)) s d)
    else (err (http 403), fresh d)
cancellation user d (s ∷ t ∷ r) = (ok internal_error, fresh d)

module _ (api : StripeApi) (d : Db) (valid : constraints d ≡ true) where
  notify_canceled-unwanted : (user : Option ℕ) → notify_canceled false user ≡ pure tt
  unfolding notify_canceled
  notify_canceled-unwanted none = refl
  notify_canceled-unwanted (some u) = refl

  cancel_active-rows :
      (user : Option ℕ) (s : Subscription) (plans : List Plan)
      → select (λ q. q.id == plan_of s.plan_id && q.is_active) d.plans ≡ plans
      → try_except (cancel_active api user false false s) give_up (fresh d)
        ≡ cancelled_unless (is_repeated plans) s d
  unfolding cancel_active get_plan_by_id ◌>>=◌
  cancel_active-rows user s [] e =
      rw
        (
          e,
          cancel_in_stripe_if-unwanted api s.stripe_subscription_id,
          notify_canceled-unwanted user,
          constraints-cancel s.id d,
          valid,
        )
        refl
  cancel_active-rows user s (p ∷ []) e =
      rw
        (
          e,
          cancel_in_stripe_if-unwanted api s.stripe_subscription_id,
          notify_canceled-unwanted user,
          constraints-cancel s.id d,
          valid,
        )
        refl
  cancel_active-rows user s (p ∷ q ∷ ps) e = rw e refl

  cancel_found-one :
      (user : Option ℕ) (s : Subscription)
      → owned_by user s.user_id ≡ permits user s
      → try_except (cancel_found api user false false (some s)) give_up (fresh d)
        ≡ cancellation user d (s ∷ [])
  unfolding cancel_found ◌>>=◌
  cancel_found-one user s o = elim (Bool-cases (permits user s)) [
    | inr foreign ↦ rw (o, foreign) refl
    | inl own ↦ elim (Bool-cases (is_over s.status s.is_active)) [
      | inl over ↦ rw (o, own, is_over-canceled s.status s.is_active, over) refl
      | inr active ↦
          rw (o, own, is_over-canceled s.status s.is_active, active)
            (cancel_active-rows user s _ refl)
    ]
  ]

  -- The error handler leaves each answer as it is.
  handle-cancellation :
      (user : Option ℕ) (rows : List Subscription)
      → handle (cancellation user d rows).0 rollback_and_raise (cancellation user d rows).1
        ≡ cancellation user d rows
  unfolding rollback_and_raise raise
  handle-cancellation user [] = refl
  handle-cancellation user (s ∷ []) = elim (Bool-cases (permits user s)) [
    | inr foreign ↦ rw foreign refl
    | inl own ↦ elim (Bool-cases (is_over s.status s.is_active)) [
      | inl over ↦ rw (own, over) refl
      | inr active ↦
          elim (Bool-cases
            (is_repeated (select (λ q. q.id == plan_of s.plan_id && q.is_active) d.plans))) [
              | inl twice ↦ rw (own, active, twice) refl
              | inr once ↦ rw (own, active, once) refl
            ]
    ]
  ]
  handle-cancellation user (s ∷ t ∷ r) = refl

  cancel_rows :
      (id : ℕ) (user : Option ℕ) (rows : List Subscription)
      → select (λ r. r.id == id) d.subscriptions ≡ rows
      → try_except
          (get_subscription_by_id id >>= cancel_found api user false false)
          give_up
          (fresh d)
        ≡ cancellation user d rows
  unfolding get_subscription_by_id cancel_found ◌>>=◌
  cancel_rows id user [] e = rw e refl
  cancel_rows id none (s ∷ []) e = rw e (cancel_found-one none s refl)
  cancel_rows id (some u) (s ∷ []) e = rw e (cancel_found-one (some u) s refl)
  cancel_rows id user (s ∷ t ∷ r) e = rw e refl

  -- cancel_subscription without Stripe and without a mail, where the constraints are met and the
  -- calls of the database succeed: with no subscription it answers that there is none, and HTTP
  -- 403 where a user is given who does not own it; one that is canceled or not active stays as it
  -- is; any other is committed as canceled, not active and not renewed, also where no user is
  -- given or its plan is missing; two rows of the subscription, or two active ones of its plan,
  -- are an internal error and no change.
  pub cancel_user_subscription-fresh :
      (id : ℕ) (user : Option ℕ)
      → cancel_user_subscription api id user false false (fresh d)
        ≡ cancellation user d (select (λ r. r.id == id) d.subscriptions)
  unfolding cancel_user_subscription db_error_handler try_except
  cancel_user_subscription-fresh id user =
      ap (λ x. handle x.0 rollback_and_raise x.1) (cancel_rows id user _ refl)
      ∙ handle-cancellation user (select (λ r. r.id == id) d.subscriptions)
