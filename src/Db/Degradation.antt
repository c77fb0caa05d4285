-- ===== src/Db/Degradation.antt =====
-- `get_db` (app/core/database.py): its retries, and the module's variables that tell whether the
-- database is degraded. FastAPI throws what a request raises into the generator at its `yield`, inside
-- the `try`. Times are natural numbers of seconds; the delays before a retry are not modelled.
pub mod Tracking
pub mod Repeats
use fastapi_auth_service.Prelude.{
  ℕ, zero, suc, ◌+◌, Bool, true, false, ◌||◌, Option, none, some, List, [], ◌∷◌, ltb, leb,
  if◌then◌else◌,
}
use fastapi_auth_service.Db.Retry.{Failure, should_retry}

pub record Health : Type 0 where
  pub last_connection_error : Option ℕ
  pub connection_error_count : ℕ
  pub in_degraded_mode : Bool

abbrev pub initial_health : Health
initial_health = record {
  last_connection_error = none;
  connection_error_count = 0;
  in_degraded_mode = false;
}

abbrev pub max_error_count_before_degradation : ℕ
max_error_count_before_degradation = 3

abbrev pub error_reset_period : ℕ
error_reset_period = 300

-- An attempt opens no session, or its session is yielded and the request ends or throws. A generator
-- that yields again after a throw is closed there, by a `GeneratorExit`, which is no `SQLAlchemyError`.
pub data Visit : Type 0 where
  unopened : Failure → Visit
  served : Visit
  interrupted : Failure → Visit

-- What an attempt meets, and the readings of the clock when the session is open, when an exception is
-- caught, and in `_handle_db_error`.
pub record Turn : Type 0 where
  pub visit : Visit
  pub opened_at : ℕ
  pub failed_at : ℕ
  pub handled_at : ℕ

-- The exception that ends the generator, the number of times that it has yielded a session, and the
-- variables after it.
pub record Outcome : Type 0 where
  pub raised : Option Failure
  pub sessions : ℕ
  pub health : Health

abbrev pub handle_db_error : ℕ → Health → Health
handle_db_error now h = record h {
  last_connection_error = some now;
  in_degraded_mode =
      h.in_degraded_mode || leb max_error_count_before_degradation h.connection_error_count;
}

-- The branch of `get_db` for a session that is open.
unfoldable pub reset_errors : ℕ → Health → Option ℕ → Health
reset_errors now h none = h
reset_errors now h (some last) = if ltb (last + error_reset_period) now then initial_health else h

abbrev pub count_error : ℕ → Health → Health
count_error now h = record h {
  last_connection_error = some now;
  connection_error_count = h.connection_error_count + 1;
}

-- The handler of an `SQLAlchemyError`; `rest` is what the further attempts come to, if there are any.
unfoldable pub retry_or_raise : Failure → ℕ → ℕ → Health → Option Outcome → Outcome
unfolding should_retry
retry_or_raise e yielded now h none = record {
  raised = some e;
  sessions = yielded;
  health = handle_db_error now h;
}
retry_or_raise e yielded now h (some rest) =
    if should_retry e
    then record { raised = rest.raised; sessions = yielded + rest.sessions; health = rest.health }
    else record { raised = some e; sessions = yielded; health = handle_db_error now h }

abbrev pub opened_health : Turn → Health → Health
opened_health t h = reset_errors t.opened_at h h.last_connection_error

-- The variables after an attempt that fails, as the next attempt finds them.
unfoldable pub failed_health : Turn → Visit → Health → Health
unfolding reset_errors
failed_health t (unopened e) h = count_error t.failed_at h
failed_health t served h = opened_health t h
failed_health t (interrupted e) h = count_error t.failed_at (opened_health t h)

unfoldable pub attend : Turn → Visit → Health → Option Outcome → Outcome
unfolding reset_errors retry_or_raise
attend t (unopened e) h rest =
    if e.is_sqlalchemy
    then retry_or_raise e 0 t.handled_at (count_error t.failed_at h) rest
    else record { raised = some e; sessions = 0; health = h }
attend t served h rest = record { raised = none; sessions = 1; health = opened_health t h }
attend t (interrupted e) h rest =
    if e.is_sqlalchemy
    then retry_or_raise e 1 t.handled_at (count_error t.failed_at (opened_health t h)) rest
    else record { raised = some e; sessions = 1; health = opened_health t h }

-- The loop over the attempts; `retries` are left after this one.
unfoldable pub attempts : (ℕ → Turn) → ℕ → ℕ → Health → Outcome
unfolding attend failed_health
attempts turns zero attempt h = attend (turns attempt) (turns attempt).visit h none
attempts turns (suc retries) attempt h =
    let t : Turn = turns attempt in
    let rest : Outcome = attempts turns retries (suc attempt) (failed_health t t.visit h) in
    attend t t.visit h (some rest)

unfoldable pub get_db : (ℕ → Turn) → Health → Outcome
unfolding attempts
get_db turns h = attempts turns 3 0 h

-- The variables after one call for each request.
unfoldable pub health_after : List (ℕ → Turn) → Health → Health
unfolding get_db
health_after [] h = h
health_after (turns ∷ calls) h = health_after calls (get_db turns h).health
