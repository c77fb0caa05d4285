-- ===== src/Db/Session.antt =====
-- The `AsyncSession` of a request (app/core/database.py: `autoflush=False`,
-- `expire_on_commit=False`) as a state and exception monad. `current` is the database as the
-- session sees it, `committed` what other sessions see. Any call of the database may raise: the
-- session carries the outcomes of its next calls in `faults`, and calls beyond that list succeed.
use fastapi_auth_service.Prelude.{ℕ, Bool, true, false, Option, none, some, List, [], ◌∷◌, ◌++◌}
use fastapi_auth_service.Db.Schema.{Db, Text, constraints}

-- The exceptions that the handlers tell apart; `http` carries the status code. `rollback_failed` is
-- what a rollback raises, with whether that is an `SQLAlchemyError`.
pub data Exn : Type 0 where
  http : ℕ → Exn
  integrity_error sqlalchemy_error multiple_results : Exn
  insufficient_credits value_error type_error other_exception : Exn
  rollback_failed : Bool → Exn

-- `isinstance(e, SQLAlchemyError)`
abbrev pub is_sqlalchemy_error : Exn → Bool
is_sqlalchemy_error integrity_error = true
is_sqlalchemy_error sqlalchemy_error = true
is_sqlalchemy_error multiple_results = true
is_sqlalchemy_error (rollback_failed b) = b
is_sqlalchemy_error _ = false

-- What leaves the service: internal events, and the calls that change Stripe's state.
pub data Notice : Type 0 where
  trial_started : ℕ → Text → Notice
  account_frozen account_unfrozen : ℕ → Notice
  invoice_paid invoice_failed : ℕ → Text → Notice
  stripe_cancel stripe_cancel_at_period_end : Text → Notice
  email_to : ℕ → Notice

pub data Result (A : Type 0) : Type 0 where
  ok : A → Result A
  err : Exn → Result A

pub record Session : Type 0 where
  pub committed : Db
  pub current : Db
  pub faults : List (Option Exn)
  pub outbox : List Notice

abbrev pub Exec : Type 0 → Type 0
Exec A = Session → Result A × Session

-- A new session on the database `d`, all of whose calls succeed.
abbrev pub fresh : Db → Session
fresh d = record { committed = d; current = d; faults = []; outbox = [] }

abbrev pub continue : {A B : Type 0} → Result A → (A → Exec B) → Exec B
continue (ok a) f s = f a s
continue (err e) f s = (err e, s)

abbrev pub handle : {A : Type 0} → Result A → (Exn → Exec A) → Exec A
handle (ok a) h s = (ok a, s)
handle (err e) h s = h e s

abbrev pub outcome : List (Option Exn) → Exec (Unit {0})
outcome [] s = (ok tt, s)
outcome (none ∷ fs) s = (ok tt, record s { faults = fs })
outcome (some e ∷ fs) s = (err e, record s { faults = fs })

abbrev pub unless_violated : Bool → Exec (Unit {0})
unless_violated true s = (ok tt, s)
unless_violated false s = (err integrity_error, s)

module _ {A : Type 0} where
  unfoldable pub pure : A → Exec A
  pure a s = (ok a, s)

  unfoldable pub raise : Exn → Exec A
  raise e s = (err e, s)

  -- A pure computation that may raise.
  unfoldable pub lift : Result A → Exec A
  lift r s = (r, s)

  -- An attribute of an object that the session already holds.
  unfoldable pub gets : (Db → A) → Exec A
  gets f s = (ok (f s.current), s)

  -- `await db.execute(select …)`.
  unfoldable pub query : (Db → A) → Exec A
  query f s = let (r, s') = outcome s.faults s in continue r (λ _ t. (ok (f t.current), t)) s'

  -- `result.scalar_one_or_none()`.
  unfoldable pub scalar_one_or_none : List A → Exec (Option A)
  scalar_one_or_none [] s = (ok none, s)
  scalar_one_or_none (x ∷ []) s = (ok (some x), s)
  scalar_one_or_none (x ∷ y ∷ r) s = (err multiple_results, s)

  -- `try: m except …: handler`.
  unfoldable pub try_except : Exec A → (Exn → Exec A) → Exec A
  try_except m h s = let (r, s') = m s in handle r h s'

-- Any other call of the database.
unfoldable pub call : Exec (Unit {0})
call s = outcome s.faults s

-- Writes to objects of the session, and `db.add`: no call of the database.
unfoldable pub modify : (Db → Db) → Exec (Unit {0})
modify f s = (ok tt, record s { current = f s.current })

-- `await db.flush()`: the pending writes are sent, and the constraints are checked.
unfoldable pub flush : Exec (Unit {0})
flush s =
    let (r, s') = outcome s.faults s in
    continue r (λ _ t. unless_violated (constraints t.current) t) s'

-- `await db.commit()`.
unfoldable pub commit : Exec (Unit {0})
unfolding flush
commit s =
    let (r, s') = flush s in continue r (λ _ t. (ok tt, record t { committed = t.current })) s'

abbrev pub rolled_back : Result (Unit {0}) → Exec (Unit {0})
rolled_back (ok x) s = (ok tt, record s { current = s.committed })
rolled_back (err e) s = (err (rollback_failed (is_sqlalchemy_error e)), s)

-- `await db.rollback()`, a call of the database that may fail like any other.
unfoldable pub rollback : Exec (Unit {0})
rollback s = let (r, s') = outcome s.faults s in rolled_back r s'

-- `await db.refresh(obj)` reads the row again.
unfoldable pub refresh : Exec (Unit {0})
unfolding call
refresh = call

unfoldable pub publish : Notice → Exec (Unit {0})
publish n s = (ok tt, record s { outbox = s.outbox ++ n ∷ [] })

infixl 5 ◌>>=◌ ◌>>◌
-- Opening this opens the primitive actions too.
unfoldable pub ◌>>=◌ : {A B : Type 0} → Exec A → (A → Exec B) → Exec B
unfolding pure raise lift gets query scalar_one_or_none try_except call modify flush commit rollback
    refresh publish
◌>>=◌ m f s = let (r, s') = m s in continue r f s'

abbrev pub ◌>>◌ : {A B : Type 0} → Exec A → Exec B → Exec B
m >> k = m >>= λ _. k

-- What the rest of the system sees after the request: `get_db` closes the session, which drops what
-- was not committed.
abbrev pub after : {A : Type 0} → Exec A → Db → Db
after m d = (m (fresh d)).1.committed
