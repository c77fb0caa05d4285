-- ===== src/Tests/Database.antt =====
-- Runs of the retries and of `get_db` (app/core/db_utils.py, app/core/database.py), and the theorems at
-- concrete inputs.
use fastapi_auth_service.Prelude.{
  ℕ, ◌*◌, ◌+◌, ◌≤◌, ◌<◌, ◌≡◌, ◌==◌, refl, true, false, none, some, [], ◌∷◌, leb, ltb, all, length,
  arith, if◌then◌else◌,
}
use fastapi_auth_service.Db.Retry.{Attempt, Answer, Failure, should_retry, with_exponential_backoff}
use fastapi_auth_service.Db.Retry.Bounds.{
  is_retried, with_exponential_backoff-bounds, with_exponential_backoff-returned,
}
use fastapi_auth_service.Db.Degradation.{
  Health, initial_health, unopened, interrupted, Turn, get_db, health_after,
}
use fastapi_auth_service.Db.Degradation.Tracking.{
  IsTracked, health_after-IsTracked, get_db-degraded,
}
use fastapi_auth_service.Db.Degradation.Repeats.{is_thrown_again, is_refused_again, get_db-repeats}

-- A connection that is refused twice, and then opens.
abbrev pub refusal : Failure
refusal = record {
  is_sqlalchemy = true;
  is_operational = true;
  own_class = none;
  pg_code = none;
  says = λ p. false;
}

abbrev pub unsteady : ℕ → Attempt ℕ
unsteady n = if ltb n 2 then Attempt.raised refusal else Attempt.returned 7

abbrev pub doubled : ℕ → ℕ → ℕ
doubled attempt delay = delay * 2

unsteady-delays :
    with_exponential_backoff unsteady doubled 15 3 5 ≡ (Answer.returned 7, 10 ∷ 15 ∷ [])
unfolding with_exponential_backoff
unsteady-delays = refl

with_exponential_backoff-bounds_example :
    (length (with_exponential_backoff unsteady doubled 15 3 5).1 ≤ 3)
    × (all (λ d. leb d 15) (with_exponential_backoff unsteady doubled 15 3 5).1 ≡ true)
with_exponential_backoff-bounds_example = with_exponential_backoff-bounds unsteady doubled 15 3 5

unsteady-retried : (i : ℕ) → i < 2 → is_retried (unsteady i) ≡ true
unfolding should_retry
unsteady-retried i h = let early : ltb i 2 ≡ true = ground arith in rw early refl

with_exponential_backoff-returned_example :
    ((with_exponential_backoff unsteady doubled 15 3 5).0 ≡ Answer.returned 7)
    × (length (with_exponential_backoff unsteady doubled 15 3 5).1 ≡ 2)
with_exponential_backoff-returned_example =
    with_exponential_backoff-returned unsteady doubled 15 2 3 5 7 (omega arith) refl
      unsteady-retried

-- The database is refused at every attempt.
abbrev pub refusing : ℕ → Turn
refusing n = record {
  visit = unopened refusal;
  opened_at = 100 + n;
  failed_at = 101 + n;
  handled_at = 102 + n;
}

-- What closes a generator.
abbrev pub generator_exit : Failure
generator_exit = record refusal { is_sqlalchemy = false; is_operational = false }

-- Ten minutes later a request throws, the database is refused once, and the next session is closed.
abbrev pub throwing : ℕ → Turn
throwing n = record {
  visit =
      if n == 0
      then interrupted refusal
      else if n == 1
      then unopened refusal
      else interrupted generator_exit;
  opened_at = 700 + n;
  failed_at = 701 + n;
  handled_at = 702 + n;
}

abbrev pub refused_health : Health
refused_health = record {
  last_connection_error = some 105;
  connection_error_count = 4;
  in_degraded_mode = true;
}

initial-IsTracked : IsTracked initial_health
initial-IsTracked = record { known = refl; counted = refl }

get_db-refusing :
    get_db refusing initial_health
    ≡ record { raised = some refusal; sessions = 0; health = refused_health }
unfolding get_db
get_db-refusing = refl

get_db-recovers : (get_db throwing refused_health).health.in_degraded_mode ≡ false
unfolding get_db
get_db-recovers = refl

health_after-IsTracked_example : IsTracked (health_after (refusing ∷ throwing ∷ []) initial_health)
health_after-IsTracked_example =
    health_after-IsTracked (refusing ∷ throwing ∷ []) initial_health initial-IsTracked

refusing-raised : (get_db refusing initial_health).raised ≡ some refusal
unfolding get_db
refusing-raised = refl

get_db-degraded_example :
    (get_db refusing initial_health).health.in_degraded_mode
    ≡ leb 3 (get_db refusing initial_health).health.connection_error_count
get_db-degraded_example =
    get_db-degraded refusing initial_health refusal initial-IsTracked refusing-raised refl

throwing-again : is_thrown_again (throwing 0).visit ≡ true
unfolding should_retry
throwing-again = refl

refused-again : (i : ℕ) → i < 1 → is_refused_again (throwing (1 + i)).visit ≡ true
unfolding should_retry
refused-again i h = let first : i ≡ 0 = omega arith in rw first refl

get_db-repeats_example :
    ((get_db throwing refused_health).raised ≡ some generator_exit)
    × ((get_db throwing refused_health).sessions ≡ 2)
get_db-repeats_example =
    get_db-repeats throwing generator_exit refl 1 refused_health (omega arith) throwing-again
      refused-again refl
