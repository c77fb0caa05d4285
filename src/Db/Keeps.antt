-- ===== src/Db/Keeps.antt =====
-- The triples of `Db.Ensures` without pre- and postconditions: rules for `search`, one for each way to
-- build an action, by which an invariant is kept.
use fastapi_auth_service.Prelude.{Bool, List, if◌then◌else◌}
use fastapi_auth_service.Db.Schema.{Db}
use fastapi_auth_service.Db.Session.{
  Exn, Notice, Result, Exec, pure, raise, lift, ◌>>=◌, try_except, call, query, modify, gets,
  commit, flush, rollback, refresh, publish, scalar_one_or_none,
}
use fastapi_auth_service.Db.Ensures.{
  Keeps, Ensures-pure, Ensures-raise, Ensures-lift, Ensures-bind, Ensures-try, Ensures-call,
  Ensures-query, Ensures-modify, Ensures-gets, Ensures-commit, Ensures-flush, Ensures-rollback,
  Ensures-refresh, Ensures-publish, Ensures-scalar, Ensures-if, Ensures-weaken,
}

module _ {I : Db → Type 0} {A : Type 0} where
  pub Keeps-pure : (a : A) → Keeps I (pure a)
  Keeps-pure a = Ensures-pure a (λ d h r. tt)

  pub Keeps-raise : (e : Exn) → Keeps I (raise {A = A} e)
  Keeps-raise e = Ensures-raise e

  pub Keeps-lift : (x : Result A) → Keeps I (lift x)
  Keeps-lift x = Ensures-lift x (λ a d h r e. tt)

  pub Keeps-query : (f : Db → A) → Keeps I (query f)
  Keeps-query f = Ensures-weaken _ (Ensures-query f) (λ d h r. tt) (λ a d h q. tt)

  pub Keeps-gets : (f : Db → A) → Keeps I (gets f)
  Keeps-gets f = Ensures-weaken _ (Ensures-gets f) (λ d h r. tt) (λ a d h q. tt)

  pub Keeps-scalar : (l : List A) → Keeps I (scalar_one_or_none l)
  Keeps-scalar l = Ensures-scalar l (λ d h r e. tt) (λ a d h r e. tt)

  pub Keeps-if : (b : Bool) (m n : Exec A) → Keeps I m → Keeps I n → Keeps I (if b then m else n)
  Keeps-if b m n hm hn = Ensures-if b m n (λ _. hm) (λ _. hn)

  pub Keeps-try :
      (m : Exec A) (k : Exn → Exec A)
      → Keeps I m
      → ((e : Exn) → Keeps I (k e))
      → Keeps I (try_except m k)
  Keeps-try m k hm hk = Ensures-try m k hm hk

module _ {I : Db → Type 0} where
  pub Keeps-bind :
      {A B : Type 0} (m : Exec A) (f : A → Exec B)
      → Keeps I m
      → ((a : A) → Keeps I (f a))
      → Keeps I (m >>= f)
  Keeps-bind m f hm hf = Ensures-bind m f hm (λ a. hf a)

  pub Keeps-modify : (f : Db → Db) → ((d : Db) → I d → I (f d)) → Keeps I (modify f)
  Keeps-modify f h = Ensures-modify f (λ d i r. (h d i, tt))

  pub Keeps-call : Keeps I call
  Keeps-call = Ensures-weaken _ Ensures-call (λ d h r. tt) (λ a d h q. tt)

  pub Keeps-commit : Keeps I commit
  Keeps-commit = Ensures-weaken _ Ensures-commit (λ d h r. tt) (λ a d h q. tt)

  pub Keeps-flush : Keeps I flush
  Keeps-flush = Ensures-weaken _ Ensures-flush (λ d h r. tt) (λ a d h q. tt)

  pub Keeps-rollback : Keeps I rollback
  Keeps-rollback = Ensures-rollback

  pub Keeps-refresh : Keeps I refresh
  Keeps-refresh = Ensures-weaken _ Ensures-refresh (λ d h r. tt) (λ a d h q. tt)

  pub Keeps-publish : (n : Notice) → Keeps I (publish n)
  Keeps-publish n = Ensures-weaken _ (Ensures-publish n) (λ d h r. tt) (λ a d h q. tt)

pub ruleset keeps_rules = (
  Keeps-pure, Keeps-raise, Keeps-lift, Keeps-query, Keeps-gets, Keeps-scalar, Keeps-if, Keeps-try,
  Keeps-bind, Keeps-call, Keeps-commit, Keeps-flush, Keeps-rollback, Keeps-refresh, Keeps-publish,
)
