-- ===== src/Db/Retry.antt =====
-- `classify_exception` and `with_exponential_backoff` (app/core/db_utils.py). Of an exception, what the
-- code asks of it; durations are natural numbers, and `scale` is the product of the delay, the backoff
-- factor and the random jitter, which the code computes in floating point.
pub mod Bounds
use fastapi_auth_service.Prelude.{
  ℕ, zero, suc, ◌+◌, Bool, true, false, not, ◌&&◌, ◌||◌, Option, none, some, List, [], ◌∷◌, min,
  if◌then◌else◌,
}

-- The classes of app/core/db_exceptions.py; `database` is their base class.
pub data ExceptionClass : Type 0 where
  connection_refused connection_lost connection_timeout database_auth : ExceptionClass
  insufficient_resources integrity data_error system database : ExceptionClass

-- The SQLSTATE codes that the code names.
pub data PgCode : Type 0 where
  pg_08001 pg_08006 pg_08p01 pg_28p01 pg_28000 : PgCode
  pg_53000 pg_53100 pg_53200 pg_53300 pg_53400 : PgCode
  pg_23000 pg_23001 pg_23502 pg_23503 pg_23505 pg_23514 : PgCode
  pg_22000 pg_22001 pg_22003 pg_22007 pg_22p02 : PgCode
  pg_57000 pg_57014 pg_58000 pg_58030 pg_xx000 : PgCode
  other : ℕ → PgCode

-- The phrases that the code looks for in the message, in lower case.
pub data Phrase : Type 0 where
  connection_refused timeout lost_connection broken_pipe authentication password : Phrase
  too_many_connections out_of_memory connection reset closed : Phrase

-- What `isinstance` says of an exception, its code, and its message.
pub record Failure : Type 0 where
  pub is_sqlalchemy : Bool
  pub is_operational : Bool
  pub own_class : Option ExceptionClass
  pub pg_code : Option PgCode
  pub says : Phrase → Bool

unfoldable pub pg_error_code_map : PgCode → ExceptionClass
pg_error_code_map pg_08001 = ExceptionClass.connection_refused
pg_error_code_map pg_08006 = connection_lost
pg_error_code_map pg_08p01 = connection_lost
pg_error_code_map pg_28p01 = database_auth
pg_error_code_map pg_28000 = database_auth
pg_error_code_map pg_53000 = insufficient_resources
pg_error_code_map pg_53100 = insufficient_resources
pg_error_code_map pg_53200 = insufficient_resources
pg_error_code_map pg_53300 = insufficient_resources
pg_error_code_map pg_53400 = insufficient_resources
pg_error_code_map pg_23000 = integrity
pg_error_code_map pg_23001 = integrity
pg_error_code_map pg_23502 = integrity
pg_error_code_map pg_23503 = integrity
pg_error_code_map pg_23505 = integrity
pg_error_code_map pg_23514 = integrity
pg_error_code_map pg_22000 = data_error
pg_error_code_map pg_22001 = data_error
pg_error_code_map pg_22003 = data_error
pg_error_code_map pg_22007 = data_error
pg_error_code_map pg_22p02 = data_error
pg_error_code_map pg_57000 = system
pg_error_code_map pg_57014 = system
pg_error_code_map pg_58000 = system
pg_error_code_map pg_58030 = system
pg_error_code_map pg_xx000 = system
pg_error_code_map (other code) = database

-- The last checks, of any exception's message.
unfoldable pub classify_message : Failure → ExceptionClass
classify_message e =
    if e.says Phrase.connection_refused
    then ExceptionClass.connection_refused
    else if e.says timeout
    then connection_timeout
    else if e.says connection && (e.says reset || e.says closed)
    then connection_lost
    else database

unfoldable pub classify_operational : Failure → ExceptionClass
unfolding classify_message
classify_operational e =
    if e.says Phrase.connection_refused
    then ExceptionClass.connection_refused
    else if e.says timeout
    then connection_timeout
    else if e.says lost_connection || e.says broken_pipe
    then connection_lost
    else if e.says authentication || e.says password
    then database_auth
    else if e.says too_many_connections || e.says out_of_memory
    then insufficient_resources
    else classify_message e

unfoldable pub classify_sqlalchemy : Failure → Option PgCode → ExceptionClass
unfolding pg_error_code_map classify_operational classify_message
classify_sqlalchemy e (some code) = pg_error_code_map code
classify_sqlalchemy e none = if e.is_operational then classify_operational e else classify_message e

unfoldable pub classify_exception : Failure → ExceptionClass
unfolding classify_sqlalchemy classify_message
classify_exception e =
    if e.is_sqlalchemy then classify_sqlalchemy e e.pg_code else classify_message e

-- The classes among `retry_exceptions`.
abbrev pub is_retry_class : ExceptionClass → Bool
is_retry_class ExceptionClass.connection_refused = true
is_retry_class connection_lost = true
is_retry_class connection_timeout = true
is_retry_class insufficient_resources = true
is_retry_class _ = false

abbrev pub is_retry_instance : Option ExceptionClass → Bool
is_retry_instance none = false
is_retry_instance (some c) = is_retry_class c

-- The loop over `retry_exceptions`, which end with SQLAlchemy's `OperationalError`.
unfoldable pub should_retry : Failure → Bool
unfolding classify_exception
should_retry e =
    is_retry_instance e.own_class || is_retry_class (classify_exception e) || e.is_operational

-- What the decorated function does at an attempt, and what the wrapper does in the end.
pub data Attempt (A : Type 0) : Type 0 where
  returned : A → Attempt A
  raised : Failure → Attempt A

pub data Answer (A : Type 0) : Type 0 where
  returned : A → Answer A
  raised : ExceptionClass → Answer A

module _ {A : Type 0} where
  -- The last attempt.
  unfoldable pub settle : Attempt A → Answer A × List ℕ
  settle (returned a) = (Answer.returned a, [])
  settle (raised e) = (Answer.raised (classify_exception e), [])

  -- An attempt before the last, with the delay that may be slept and what comes after it.
  unfoldable pub proceed : Attempt A → ℕ → Answer A × List ℕ → Answer A × List ℕ
  unfolding should_retry
  proceed (returned a) delay rest = (Answer.returned a, [])
  proceed (raised e) delay rest =
      if should_retry e
      then (rest.0, delay ∷ rest.1)
      else (Answer.raised (classify_exception e), [])

module _ {A : Type 0} (func : ℕ → Attempt A) (scale : ℕ → ℕ → ℕ) (max_delay : ℕ) where
  -- `retries` are left after this attempt. The delays slept are listed in order.
  unfoldable pub wrapper : ℕ → ℕ → ℕ → Answer A × List ℕ
  unfolding settle proceed
  wrapper zero attempt delay = settle (func attempt)
  wrapper (suc retries) attempt delay =
      let next : ℕ = min (scale attempt delay) max_delay in
      proceed (func attempt) next (wrapper retries (suc attempt) next)

  unfoldable pub with_exponential_backoff : ℕ → ℕ → Answer A × List ℕ
  unfolding wrapper
  with_exponential_backoff max_retries initial_delay = wrapper max_retries 0 initial_delay
