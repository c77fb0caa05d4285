-- ===== src/Db/Degradation/Repeats.antt =====
-- How often `get_db` (app/core/database.py) yields a session when requests raise.
use fastapi_auth_service.Prelude.{
  ℕ, zero, suc, ◌+◌, ◌≤◌, ◌<◌, ◌≡◌, refl, ap, ◌∙◌, Bool, true, false, ◌&&◌, Option, none, some,
  arith, if◌then◌else◌,
}
use fastapi_auth_service.Db.Retry.{Failure, should_retry}
use fastapi_auth_service.Db.Degradation.{
  Health, Visit, unopened, served, interrupted, Turn, Outcome, retry_or_raise, attend,
  opened_health, failed_health, attempts, get_db,
}

-- The request throws an `SQLAlchemyError` that is among those to retry.
abbrev pub is_thrown_again : Visit → Bool
is_thrown_again (interrupted e) = e.is_sqlalchemy && should_retry e
is_thrown_again _ = false

-- No session is opened, for such an error.
abbrev pub is_refused_again : Visit → Bool
is_refused_again (unopened e) = e.is_sqlalchemy && should_retry e
is_refused_again _ = false

if-true : {A : Type 0} (b : Bool) (x y : A) → b ≡ true → (if b then x else y) ≡ x
if-true true x y h = refl
if-true false x y h = absurd (cc h)

both : (a b : Bool) → (a && b) ≡ true → (a ≡ true) × (b ≡ true)
both true b h = (refl, h)
both false b h = absurd (cc h)

-- What a call comes to after an attempt that is followed by others.
abbrev pub with_session : ℕ → Outcome → Outcome
with_session n rest = record {
  raised = rest.raised;
  sessions = n + rest.sessions;
  health = rest.health;
}

attend-thrown :
    (t : Turn) (v : Visit) (h : Health) (rest : Outcome)
    → is_thrown_again v ≡ true
    → attend t v h (some rest) ≡ with_session 1 rest
unfolding attend retry_or_raise
attend-thrown t (unopened e) h rest k = absurd (cc k)
attend-thrown t served h rest k = absurd (cc k)
attend-thrown t (interrupted e) h rest k =
    let parts : (e.is_sqlalchemy ≡ true) × (should_retry e ≡ true) =
      both e.is_sqlalchemy (should_retry e) k in
    if-true e.is_sqlalchemy _ _ parts.0 ∙ if-true (should_retry e) _ _ parts.1

attend-refused :
    (t : Turn) (v : Visit) (h : Health) (rest : Outcome)
    → is_refused_again v ≡ true
    → attend t v h (some rest) ≡ with_session 0 rest
unfolding attend retry_or_raise
attend-refused t (interrupted e) h rest k = absurd (cc k)
attend-refused t served h rest k = absurd (cc k)
attend-refused t (unopened e) h rest k =
    let parts : (e.is_sqlalchemy ≡ true) × (should_retry e ≡ true) =
      both e.is_sqlalchemy (should_retry e) k in
    if-true e.is_sqlalchemy _ _ parts.0 ∙ if-true (should_retry e) _ _ parts.1

abbrev pub IsClosed : Failure → ℕ → Outcome → Type 0
IsClosed exit n o = (o.raised ≡ some exit) × (o.sessions ≡ n)

if-false : {A : Type 0} (b : Bool) (x y : A) → b ≡ false → (if b then x else y) ≡ y
if-false true x y h = absurd (cc h)
if-false false x y h = refl

-- `exit` closes the generator.
module _ (turns : ℕ → Turn) (exit : Failure) (no_sql : exit.is_sqlalchemy ≡ false) where
  attend-exit :
      (t : Turn) (h : Health) (rest : Option Outcome)
      → attend t (interrupted exit) h rest
        ≡ record { raised = some exit; sessions = 1; health = opened_health t h }
  unfolding attend
  attend-exit t h rest = if-false exit.is_sqlalchemy _ _ no_sql

  attend-IsClosed :
      (t : Turn) (v : Visit) (h : Health) (rest : Option Outcome)
      → v ≡ interrupted exit
      → IsClosed exit 1 (attend t v h rest)
  attend-IsClosed t v h rest k = rw (k, attend-exit t h rest) (refl, refl)

  attempts-IsClosed :
      (spare attempt : ℕ) (h : Health)
      → (turns attempt).visit ≡ interrupted exit
      → IsClosed exit 1 (attempts turns spare attempt h)
  unfolding attempts
  attempts-IsClosed zero attempt h k =
      attend-IsClosed (turns attempt) (turns attempt).visit h none k
  attempts-IsClosed (suc spare) attempt h k =
      attend-IsClosed (turns attempt) (turns attempt).visit h _ k

  -- Attempts that are refused come before the session that is closed.
  attempts-refused :
      (n retries attempt : ℕ) (h : Health)
      → n ≤ retries
      → (turns (attempt + n)).visit ≡ interrupted exit
      → ((i : ℕ) → i < n → is_refused_again (turns (attempt + i)).visit ≡ true)
      → IsClosed exit 1 (attempts turns retries attempt h)
  unfolding attempts
  attempts-refused zero retries attempt h b e k =
      attempts-IsClosed retries attempt h (ap (λ j. (turns j).visit) (omega arith) ∙ e)
  attempts-refused (suc n) zero attempt h b e k = absurd (omega arith)
  attempts-refused (suc n) (suc retries) attempt h b e k =
      let t : Turn = turns attempt in
      let rest : Outcome = attempts turns retries (suc attempt) (failed_health t t.visit h) in
      let later : IsClosed exit 1 rest =
        attempts-refused n retries (suc attempt) _ (omega arith)
          (ap (λ j. (turns j).visit) (omega arith) ∙ e)
          (λ i l.
            ap (λ j. is_refused_again (turns j).visit) (omega arith) ∙ k (suc i) (omega arith)) in
      let step : attend t t.visit h (some rest) ≡ with_session 0 rest =
        attend-refused t t.visit h rest
          (ap (λ j. is_refused_again (turns j).visit) (omega arith) ∙ k 0 (omega arith)) in
      (
        ap (λ o. o.raised) step ∙ later.0,
        ap (λ o. o.sessions) step ∙ ap (λ j. 0 + j) later.1 ∙ omega arith,
      )

  -- If the request on the first session of get_db throws an error of SQLAlchemy that is retried,
  -- the next n attempts, at most 2, open no session for such an error, and the session of the
  -- attempt after them is closed by an exception that is not of SQLAlchemy, get_db ends with that
  -- exception in place of the error of the request, and has yielded two sessions.
  pub get_db-repeats :
      (n : ℕ) (h : Health)
      → n ≤ 2
      → is_thrown_again (turns 0).visit ≡ true
      → ((i : ℕ) → i < n → is_refused_again (turns (1 + i)).visit ≡ true)
      → (turns (1 + n)).visit ≡ interrupted exit
      → ((get_db turns h).raised ≡ some exit) × ((get_db turns h).sessions ≡ 2)
  unfolding get_db attempts
  get_db-repeats n h b first k last =
      let t : Turn = turns 0 in
      let rest : Outcome = attempts turns 2 1 (failed_health t t.visit h) in
      let later : IsClosed exit 1 rest =
        attempts-refused n 2 1 (failed_health t t.visit h) b last k in
      let step : attend t t.visit h (some rest) ≡ with_session 1 rest =
        attend-thrown t t.visit h rest first in
      (ap (λ o. o.raised) step ∙ later.0, ap (λ o. o.sessions) step ∙ ap (λ j. 1 + j) later.1)
