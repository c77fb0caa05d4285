-- ===== src/Db/Degradation/Tracking.antt =====
-- The variables of app/core/database.py under `get_db`: errors are counted where one was met, and the
-- database is degraded only with enough of them.
use fastapi_auth_service.Prelude.{
  ℕ, zero, suc, ◌+◌, ◌≡◌, refl, Bool, true, false, ◌||◌, not, Option, none, some, is_some, List, [],
  ◌∷◌, ltb, leb, arith, Bool-cases, inl, inr, if◌then◌else◌,
}
use fastapi_auth_service.Db.Retry.{Failure, should_retry}
use fastapi_auth_service.Db.Degradation.{
  Health, Visit, unopened, served, interrupted, Turn, Outcome, reset_errors, retry_or_raise, attend,
  failed_health, attempts, get_db, health_after, count_error, handle_db_error, opened_health,
}

pub record IsTracked (h : Health) : Type 0 where
  pub known : is_some h.last_connection_error ≡ leb 1 h.connection_error_count
  pub counted : (not h.in_degraded_mode || leb 3 h.connection_error_count) ≡ true

counted-suc : (d : Bool) (n : ℕ) → (not d || leb 3 n) ≡ true → (not d || leb 3 (n + 1)) ≡ true
counted-suc true n h = ground arith
counted-suc false n h = refl

counted-handled : (d : Bool) (n : ℕ) → (not d || leb 3 n) ≡ true → (d || leb 3 n) ≡ leb 3 n
counted-handled true n h = ground arith
counted-handled false n h = refl

implied : (b : Bool) → (not b || b) ≡ true
implied true = refl
implied false = refl

count_error-IsTracked : (now : ℕ) (h : Health) → IsTracked h → IsTracked (count_error now h)
count_error-IsTracked now h t = record {
  known = ground arith;
  counted = counted-suc h.in_degraded_mode h.connection_error_count t.counted;
}

reset_errors-IsTracked :
    (now : ℕ) (h : Health) (last : Option ℕ) → IsTracked h → IsTracked (reset_errors now h last)
unfolding reset_errors
reset_errors-IsTracked now h none t = t
reset_errors-IsTracked now h (some last) t = elim (Bool-cases (ltb (last + 300) now)) [
  | inl late ↦ rw late (record { known = refl; counted = refl })
  | inr early ↦ rw early t
]

failed_health-IsTracked :
    (t : Turn) (v : Visit) (h : Health) → IsTracked h → IsTracked (failed_health t v h)
unfolding failed_health
failed_health-IsTracked t (unopened e) h k = count_error-IsTracked t.failed_at h k
failed_health-IsTracked t served h k =
    reset_errors-IsTracked t.opened_at h h.last_connection_error k
failed_health-IsTracked t (interrupted e) h k =
    count_error-IsTracked t.failed_at (opened_health t h)
      (reset_errors-IsTracked t.opened_at h h.last_connection_error k)

-- The variables are tracked, and a call that fails with an `SQLAlchemyError` ends degraded exactly with
-- enough errors.
record IsSound (o : Outcome) : Type 0 where
  tracked : IsTracked o.health
  degraded :
      (e : Failure)
      → o.raised ≡ some e
      → e.is_sqlalchemy ≡ true
      → o.health.in_degraded_mode ≡ leb 3 o.health.connection_error_count

-- The outcome of the further attempts, if there are any, is sound.
abbrev RestIsSound : Option Outcome → Type 0
RestIsSound none = Unit {0}
RestIsSound (some rest) = IsSound rest

handled-IsSound :
    (e : Failure) (yielded now last : ℕ) (h : Health)
    → IsTracked h
    → h.last_connection_error ≡ some last
    → IsSound (record { raised = some e; sessions = yielded; health = handle_db_error now h })
handled-IsSound e yielded now last h t k =
    let full : (h.in_degraded_mode || leb 3 h.connection_error_count)
        ≡ leb 3 h.connection_error_count =
      counted-handled h.in_degraded_mode h.connection_error_count t.counted in
    record {
      tracked = record {
        known = cc (t.known, k);
        counted = rw full (implied (leb 3 h.connection_error_count));
      };
      degraded = λ f same is_sql. full;
    }

-- An exception that is no `SQLAlchemyError` passes.
passed-IsSound :
    (e : Failure) (yielded : ℕ) (h : Health)
    → IsTracked h
    → e.is_sqlalchemy ≡ false
    → IsSound (record { raised = some e; sessions = yielded; health = h })
passed-IsSound e yielded h t other = record {
  tracked = t;
  degraded = λ f same is_sql. absurd (cc (same, is_sql, other));
}

IsSound-if :
    (b : Bool) (x y : Outcome)
    → (b ≡ true → IsSound x)
    → (b ≡ false → IsSound y)
    → IsSound (if b then x else y)
IsSound-if true x y f g = f refl
IsSound-if false x y f g = g refl

retry_or_raise-IsSound :
    (e : Failure) (yielded now last : ℕ) (h : Health) (rest : Option Outcome)
    → IsTracked h
    → h.last_connection_error ≡ some last
    → RestIsSound rest
    → IsSound (retry_or_raise e yielded now h rest)
unfolding retry_or_raise
retry_or_raise-IsSound e yielded now last h none t k r = handled-IsSound e yielded now last h t k
retry_or_raise-IsSound e yielded now last h (some rest) t k r =
    IsSound-if (should_retry e) _ _ (λ again. record { tracked = r.tracked; degraded = r.degraded })
      (λ over. handled-IsSound e yielded now last h t k)

-- An exception that is met in the state `h` of the variables.
caught-IsSound :
    (e : Failure) (yielded : ℕ) (t : Turn) (h : Health) (rest : Option Outcome)
    → IsTracked h
    → RestIsSound rest
    → IsSound (
        if e.is_sqlalchemy
        then retry_or_raise e yielded t.handled_at (count_error t.failed_at h) rest
        else record { raised = some e; sessions = yielded; health = h })
caught-IsSound e yielded t h rest k r =
    IsSound-if e.is_sqlalchemy _ _
      (λ sql.
        retry_or_raise-IsSound e yielded t.handled_at t.failed_at (count_error t.failed_at h) rest
          (count_error-IsTracked t.failed_at h k) refl r)
      (λ other. passed-IsSound e yielded h k other)

attend-IsSound :
    (t : Turn) (v : Visit) (h : Health) (rest : Option Outcome)
    → IsTracked h
    → RestIsSound rest
    → IsSound (attend t v h rest)
unfolding attend
attend-IsSound t (unopened e) h rest k r = caught-IsSound e 0 t h rest k r
attend-IsSound t served h rest k r = record {
  tracked = reset_errors-IsTracked t.opened_at h h.last_connection_error k;
  degraded = λ f same is_sql. absurd (cc same);
}
attend-IsSound t (interrupted e) h rest k r =
    caught-IsSound e 1 t (opened_health t h) rest
      (reset_errors-IsTracked t.opened_at h h.last_connection_error k) r

attempts-IsSound :
    (turns : ℕ → Turn) (retries attempt : ℕ) (h : Health)
    → IsTracked h
    → IsSound (attempts turns retries attempt h)
unfolding attempts
attempts-IsSound turns zero attempt h k =
    attend-IsSound (turns attempt) (turns attempt).visit h none k tt
attempts-IsSound turns (suc retries) attempt h k =
    let t : Turn = turns attempt in
    attend-IsSound t t.visit h
      (some (attempts turns retries (suc attempt) (failed_health t t.visit h))) k
      (attempts-IsSound turns retries (suc attempt) (failed_health t t.visit h)
        (failed_health-IsTracked t t.visit h k))

-- If the time of the last error is known exactly where errors are counted, and the database is
-- degraded only with at least 3 of them, that is so after any calls of get_db, one after the
-- other, whatever each attempt meets.
pub health_after-IsTracked :
    (calls : List (ℕ → Turn)) (h : Health) → IsTracked h → IsTracked (health_after calls h)
unfolding health_after get_db
health_after-IsTracked [] h k = k
health_after-IsTracked (turns ∷ calls) h k =
    health_after-IsTracked calls (get_db turns h).health (attempts-IsSound turns 3 0 h k).tracked

-- Where the variables are tracked, a call of get_db that ends with an error of SQLAlchemy leaves
-- the database degraded exactly where at least 3 errors are counted.
pub get_db-degraded :
    (turns : ℕ → Turn) (h : Health) (e : Failure)
    → IsTracked h
    → (get_db turns h).raised ≡ some e
    → e.is_sqlalchemy ≡ true
    → (get_db turns h).health.in_degraded_mode
      ≡ leb 3 (get_db turns h).health.connection_error_count
unfolding get_db
get_db-degraded turns h e k r sql = (attempts-IsSound turns 3 0 h k).degraded e r sql
