-- ===== src/Requests/Repeats.antt =====
-- Payments that are on record, and Stripe events that are marked as processed, when they come again.
use mathlib.Core.Path.{subst}
use fastapi_auth_service.Prelude.Int.{ℤ}
use fastapi_auth_service.Prelude.{
  ℕ, ◌≡◌, refl, sym, ap, ◌∙◌, ◌==◌, Bool, true, false, not, Option, some, List, [], ◌∷◌, ◌++◌, any,
  eq_option, is_some, select, arith,
}
use fastapi_auth_service.Db.Schema.{Text, Db, CreditTransaction}
use fastapi_auth_service.Db.Session.{Exn, Exec, ok, fresh, query, scalar_one_or_none, ◌>>=◌, http}
use fastapi_auth_service.Db.Ensures.{
  Ensures, Keeps, Anything, Ensures-bind, Ensures-query, Ensures-scalar, Ensures-pure,
  Ensures-raise, Ensures-try,
}
use fastapi_auth_service.Db.Keeps.{Keeps-pure, Keeps-raise}
use fastapi_auth_service.Stripe.{Verification, verify_transaction_id}
use fastapi_auth_service.Credit.Ledger.Service.{db_error_handler-Ensures}
use fastapi_auth_service.Credit.Purchase.{check_transaction_exists, require}
use fastapi_auth_service.Credit.Verified.{
  as_http, as_http_500, process_one_time, is_payment_intent, verify_and_process_one_time_payment,
  verify_and_process_subscription,
}
use fastapi_auth_service.Webhook.Events.{StripeEvent}
use fastapi_auth_service.Webhook.Endpoint.{
  is_processed, is_event_processed, stripe_webhook_endpoint, already_processed,
}
use fastapi_auth_service.Requests.{
  Context, verify_payment, verify_subscription, run, Incoming, session_of, serve, serve_all,
}
use fastapi_auth_service.Requests.Invariant.{kept, done}
use fastapi_auth_service.Requests.History.{IsLater, serve_all-IsLater}

-- A transaction with this reference is on record.
abbrev pub is_recorded : Text → List CreditTransaction → Bool
is_recorded t l = any (λ x. eq_option x.reference_id (some t)) l

-- `m` leaves the database `d₀` as it is, committed and not.
abbrev pub Leaves : {A : Type 0} → Db → Exec A → Type 0
Leaves d₀ m = Keeps (λ d. d ≡ d₀) m

select-recorded :
    (t : Text) (l : List CreditTransaction)
    → is_recorded t l ≡ true
    → select (λ x. eq_option x.reference_id (some t)) l ≡ []
    → ⊥
select-recorded t [] h e = absurd (cc h)
select-recorded t (x ∷ l) h e = ground (arith, select-recorded t l)

module _ {d₀ : Db} where
  pub Ensures-unreachable :
      {A : Type 0} {Q : A → Db → Type 0} (m : Exec A) → Ensures (λ d. d ≡ d₀) (λ d. ⊥) m Q
  Ensures-unreachable m = record { at = λ v s hc h r. absurd r }

  check-Ensures :
      (t : Text)
      → is_recorded t d₀.transactions ≡ true
      → Ensures (λ d. d ≡ d₀) Anything (check_transaction_exists t) (λ b d. b ≡ true)
  unfolding check_transaction_exists
  check-Ensures t recorded = Ensures-bind (query _) _ (Ensures-query _) λ rows.
      Ensures-bind (scalar_one_or_none rows) _
        (Ensures-scalar {Q = λ o d. is_some o ≡ true} rows
          (λ d h r e. absurd (
            select-recorded t d₀.transactions recorded (
              ap (λ x. select (λ x. eq_option x.reference_id (some t)) x.transactions) (sym h)
              ∙ sym r.1
              ∙ e)))
          (λ a d h r e. refl))
        λ found. Ensures-pure _ (λ d h r. r)

  require-false :
      (b : Bool) (status : ℕ)
      → Ensures (λ d. d ≡ d₀) (λ d. b ≡ true) (require (not b) status) (λ _ d. ⊥)
  require-false true status = Ensures-raise (http status)
  require-false false status = record { at = λ v s hc h r. absurd (cc r) }

  require-Leaves : (b : Bool) (status : ℕ) → Leaves d₀ (require b status)
  require-Leaves true status = Keeps-pure tt
  require-Leaves false status = Keeps-raise (http status)

as_http-Leaves : {d₀ : Db} {A : Type 0} (e : Exn) → Leaves d₀ (as_http {A = A} e)
as_http-Leaves (http status) = Keeps-raise (http status)
as_http-Leaves Exn.value_error = Keeps-raise (http 400)
as_http-Leaves e = Keeps-raise (http 500)

as_http_500-Leaves : {d₀ : Db} {A : Type 0} (e : Exn) → Leaves d₀ (as_http_500 {A = A} e)
as_http_500-Leaves (http status) = Keeps-raise (http status)
as_http_500-Leaves e = Keeps-raise (http 500)

module _ {d₀ : Db} (x : Context) (user : ℕ) (t : Text) (mail : Bool) (amount : Option ℤ) where
  process_one_time-Leaves :
      is_recorded t d₀.transactions ≡ true
      → Leaves d₀ (process_one_time x.api x.test x.now x.uuid user t mail amount)
  unfolding process_one_time
  process_one_time-Leaves recorded =
      let result : Verification = verify_transaction_id x.api t in
      Ensures-bind _ _ (require-Leaves result.verified 400) λ _.
        Ensures-bind _ _ (require-Leaves (is_payment_intent result.object_type) 400) λ _.
          Ensures-bind _ _ (check-Ensures t recorded)
            λ existing. Ensures-bind _ _ (require-false existing 400) λ _. Ensures-unreachable _

  verify_payment-Leaves :
      is_recorded t d₀.transactions ≡ true
      → Leaves d₀ (verify_and_process_one_time_payment x.api x.test x.now x.uuid user t mail amount)
  unfolding verify_and_process_one_time_payment
  verify_payment-Leaves recorded =
      db_error_handler-Ensures _
        (Ensures-try _ _ (process_one_time-Leaves recorded) as_http_500-Leaves)

  verify_subscription-Leaves :
      is_recorded t d₀.transactions ≡ true
      → Leaves d₀ (verify_and_process_subscription x.api x.test x.now x.uuid user t mail amount)
  unfolding verify_and_process_subscription
  verify_subscription-Leaves recorded = db_error_handler-Ensures _ (
      Ensures-bind _ _ (check-Ensures t recorded)
        λ existing. Ensures-bind _ _ (require-false existing 400) λ _. Ensures-unreachable _)

-- A request that leaves the database leaves what the others see.
serve-Leaves : (r : Incoming) (d : Db) → Leaves d (run r.context r.request) → serve r d ≡ d
unfolding serve
serve-Leaves r d h = kept (λ b. b ≡ d) (run r.context r.request) (session_of r d) h refl refl

any-append : {A : Type 0} (p : A → Bool) (l m : List A) → any p l ≡ true → any p (l ++ m) ≡ true
any-append p [] m h = absurd (cc h)
any-append p (y ∷ l) m h = ground (arith, any-append p l m)

is_recorded-later :
    (t : Text) (rs : List Incoming) (d : Db)
    → is_recorded t d.transactions ≡ true
    → is_recorded t (serve_all rs d).transactions ≡ true
is_recorded-later t rs d h =
    let later : IsLater d (serve_all rs d) = serve_all-IsLater rs d in
    subst (λ l. is_recorded t l ≡ true) (sym later.transactions)
      (any-append _ d.transactions later.recorded h)

module _ (t : Text) (rs : List Incoming) (d : Db) (recorded : is_recorded t d.transactions ≡ true)
    (x : Context) (faults : List (Option Exn)) (user : ℕ) (mail : Bool) (amount : Option ℤ) where
  -- Once a transaction with a reference is on record, whatever requests come in between, a request
  -- to verify and credit a one-time payment with that reference leaves the database as it is.
  pub serve-verify_payment :
      serve
        (record { context = x; faults = faults; request = verify_payment user t mail amount })
        (serve_all rs d)
      ≡ serve_all rs d
  unfolding run
  serve-verify_payment =
      serve-Leaves _ (serve_all rs d)
        (done _ (verify_payment-Leaves x user t mail amount (is_recorded-later t rs d recorded)))

  -- Once a transaction with a reference is on record, whatever requests come in between, a request
  -- to verify and credit a subscription with that reference leaves the database as it is.
  pub serve-verify_subscription :
      serve
        (record { context = x; faults = faults; request = verify_subscription user t mail amount })
        (serve_all rs d)
      ≡ serve_all rs d
  unfolding run
  serve-verify_subscription =
      serve-Leaves _ (serve_all rs d) (
        done _
          (verify_subscription-Leaves x user t mail amount (is_recorded-later t rs d recorded)))

-- The endpoint's answer for an event that is marked, the calls of the database succeeding.
module _ (rs : List Incoming) (d : Db) (e : StripeEvent) (x : Context) where
  -- A Stripe event that is marked as processed is answered as already processed after any
  -- requests, where the calls of the database succeed, and nothing changes, nor is anything
  -- published.
  pub endpoint-processed :
      is_processed e.id d ≡ true
      → stripe_webhook_endpoint x.platform x.trial_credits x.now e (fresh (serve_all rs d))
        ≡ (ok already_processed, fresh (serve_all rs d))
  unfolding stripe_webhook_endpoint is_event_processed ◌>>=◌
  endpoint-processed h =
      let later : IsLater d (serve_all rs d) = serve_all-IsLater rs d in
      rw
        (ap (any (λ r. r.stripe_event_id == e.id)) later.processed
          ∙ any-append (λ r. r.stripe_event_id == e.id) d.processed_events later.marked h)
        refl
