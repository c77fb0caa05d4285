-- ===== src/Db/Ensures.antt =====
-- Database invariants of session code: a triple for each way to build an action. The invariant
-- holds of the committed and of the current database before and after, also when the code raises;
-- the postcondition speaks of the current database when it returns.
use fastapi_auth_service.Prelude.{
  ◌≡◌, refl, Bool, true, false, not, ◌||◌, Option, none, some, List, [], ◌∷◌, if◌then◌else◌,
}
use fastapi_auth_service.Db.Schema.{Db, constraints}
use fastapi_auth_service.Db.Session.{
  Exn, Result, ok, err, Session, Exec, pure, raise, continue, handle, ◌>>=◌, try_except, outcome,
  call, query, modify, gets, unless_violated, lift, flush, commit, rollback, rolled_back, refresh,
  publish, scalar_one_or_none, Notice,
}

module _ (I : Db → Type 0) where
  -- What holds of the committed database: the invariant and, where `v` asks for it, the constraints.
  abbrev pub Committed : Bool → Db → Type 0
  Committed v d = I d × ((not v || constraints d) ≡ true)

  abbrev pub Post : {A : Type 0} → Bool → (A → Db → Type 0) → Result A × Session → Type 0
  Post v Q (ok a, s) = Committed v s.committed × I s.current × Q a s.current
  Post v Q (err e, s) = Committed v s.committed × I s.current

  pub record Ensures {A : Type 0} (R : Db → Type 0) (m : Exec A) (Q : A → Db → Type 0)
      : Type 0 where
    pub at :
        (v : Bool) (s : Session)
        → Committed v s.committed
        → I s.current
        → R s.current
        → Post v Q (m s)

-- `m` keeps the invariant, whether it returns or raises.
abbrev pub Anything : Db → Type 0
Anything d = Unit

abbrev pub Keeps : {A : Type 0} → (Db → Type 0) → Exec A → Type 0
Keeps I m = Ensures I Anything m (λ _ _. Unit)

module _ (I : Db → Type 0) (v : Bool) where
  Post-continue :
      {A B : Type 0} {Q : A → Db → Type 0} {T : B → Db → Type 0} (f : A → Exec B)
      → ((a : A) → Ensures I (Q a) (f a) T)
      → (r : Result A) (s : Session) → Post I v Q (r, s)
      → Post I v T (continue r f s)
  Post-continue f hf (ok a) s h = (hf a).at v s h.0 h.1 h.2
  Post-continue f hf (err e) s h = h

  Post-handle :
      {A : Type 0} {Q : A → Db → Type 0} (k : Exn → Exec A)
      → ((e : Exn) → Ensures I Anything (k e) Q)
      → (r : Result A) (s : Session) → Post I v Q (r, s)
      → Post I v Q (handle r k s)
  Post-handle k hk (ok a) s h = h
  Post-handle k hk (err e) s h = (hk e).at v s h.0 h.1 tt

  Post-outcome :
      (R : Db → Type 0) (fs : List (Option Exn)) (s : Session)
      → Committed I v s.committed
      → I s.current
      → R s.current
      → Post I {A = Unit {0}} v (λ _ d. R d) (outcome fs s)
  Post-outcome R [] s hc h r = (hc, h, r)
  Post-outcome R (none ∷ fs) s hc h r = (hc, h, r)
  Post-outcome R (some e ∷ fs) s hc h r = (hc, h)

  Post-rolled_back :
      (r : Result (Unit {0})) (s : Session)
      → Committed I v s.committed
      → I s.current
      → Post I v (λ _ _. Unit) (rolled_back r s)
  Post-rolled_back (ok x) s hc h = (hc, hc.0, tt)
  Post-rolled_back (err e) s hc h = (hc, h)

  Post-rollback :
      (fs : List (Option Exn)) (s : Session)
      → Committed I v s.committed
      → I s.current
      → Post I v (λ _ _. Unit) (let (r, s') = outcome fs s in rolled_back r s')
  Post-rollback [] s hc h = Post-rolled_back (ok tt) s hc h
  Post-rollback (none ∷ fs) s hc h = Post-rolled_back (ok tt) (record s { faults = fs }) hc h
  Post-rollback (some e ∷ fs) s hc h = Post-rolled_back (err e) (record s { faults = fs }) hc h

  Post-weaken :
      {A : Type 0} {Q T : A → Db → Type 0}
      → ((a : A) (d : Db) → I d → Q a d → T a d)
      → (x : Result A) (s : Session) → Post I v Q (x, s)
      → Post I v T (x, s)
  Post-weaken f (ok a) s h = (h.0, h.1, f a s.current h.1 h.2)
  Post-weaken f (err e) s h = h

module _ (I R : Db → Type 0) where
  passed :
      (v b : Bool) (s : Session)
      → Committed I v s.committed
      → I s.current
      → R s.current
      → constraints s.current ≡ b
      → Post I v (λ _ d. R d × (constraints d ≡ true)) (unless_violated b s)
  passed v true s hc h r e = (hc, h, (r, e))
  passed v false s hc h r e = (hc, h)

or_true : (a b : Bool) → b ≡ true → (a || b) ≡ true
or_true true b h = refl
or_true false b h = h

module _ {I R : Db → Type 0} where
  pub Ensures-pure :
      {A : Type 0} {Q : A → Db → Type 0} (a : A)
      → ((d : Db) → I d → R d → Q a d)
      → Ensures I R (pure a) Q
  unfolding pure
  Ensures-pure a f = record { at = λ v s hc h r. (hc, h, f s.current h r) }

  pub Ensures-raise : {A : Type 0} {Q : A → Db → Type 0} (e : Exn) → Ensures I R (raise {A = A} e) Q
  unfolding raise
  Ensures-raise e = record { at = λ v s hc h r. (hc, h) }

  pub Ensures-bind :
      {A B : Type 0} {Q : A → Db → Type 0} {T : B → Db → Type 0} (m : Exec A) (f : A → Exec B)
      → Ensures I R m Q
      → ((a : A) → Ensures I (Q a) (f a) T)
      → Ensures I R (m >>= f) T
  unfolding ◌>>=◌
  Ensures-bind m f hm hf = record {
    at = λ v s hc h r. let (x, s') = m s in Post-continue I v f hf x s' (hm.at v s hc h r);
  }

  pub Ensures-try :
      {A : Type 0} {Q : A → Db → Type 0} (m : Exec A) (k : Exn → Exec A)
      → Ensures I R m Q
      → ((e : Exn) → Ensures I Anything (k e) Q)
      → Ensures I R (try_except m k) Q
  unfolding try_except
  Ensures-try m k hm hk = record {
    at = λ v s hc h r. let (x, s') = m s in Post-handle I v k hk x s' (hm.at v s hc h r);
  }

  pub Ensures-call : Ensures I R call (λ _ d. R d)
  unfolding call
  Ensures-call = record { at = λ v s hc h r. Post-outcome I v R s.faults s hc h r }

  pub Ensures-gets : {A : Type 0} (f : Db → A) → Ensures I R (gets f) (λ a d. R d × (a ≡ f d))
  unfolding gets
  Ensures-gets f = record { at = λ v s hc h r. (hc, h, (r, refl)) }

  pub Ensures-lift :
      {A : Type 0} {Q : A → Db → Type 0} (x : Result A)
      → ((a : A) (d : Db) → I d → R d → x ≡ ok a → Q a d)
      → Ensures I R (lift x) Q
  unfolding lift
  Ensures-lift (ok a) f = record { at = λ v s hc h r. (hc, h, f a s.current h r refl) }
  Ensures-lift (err e) f = record { at = λ v s hc h r. (hc, h) }

  pub Ensures-modify :
      {Q : Db → Type 0} (f : Db → Db)
      → ((d : Db) → I d → R d → I (f d) × Q (f d))
      → Ensures I R (modify f) (λ _ d. Q d)
  unfolding modify
  Ensures-modify f k = record { at = λ v s hc h r. (hc, (k s.current h r).0, (k s.current h r).1) }

  pub Ensures-publish : (n : Notice) → Ensures I R (publish n) (λ _ d. R d)
  unfolding publish
  Ensures-publish n = record { at = λ v s hc h r. (hc, h, r) }

  pub Ensures-rollback : Ensures I R rollback (λ _ _. Unit)
  unfolding rollback
  Ensures-rollback = record { at = λ v s hc h r. Post-rollback I v s.faults s hc h }

  pub Ensures-if :
      {A : Type 0} {Q : A → Db → Type 0} (b : Bool) (m n : Exec A)
      → (b ≡ true → Ensures I R m Q)
      → (b ≡ false → Ensures I R n Q)
      → Ensures I R (if b then m else n) Q
  Ensures-if true m n hm hn = hm refl
  Ensures-if false m n hm hn = hn refl

  pub Ensures-scalar :
      {A : Type 0} {Q : Option A → Db → Type 0} (l : List A)
      → ((d : Db) → I d → R d → l ≡ [] → Q none d)
      → ((a : A) (d : Db) → I d → R d → l ≡ a ∷ [] → Q (some a) d)
      → Ensures I R (scalar_one_or_none l) Q
  unfolding scalar_one_or_none
  Ensures-scalar [] hn hs = record { at = λ v s hc h r. (hc, h, hn s.current h r refl) }
  Ensures-scalar (x ∷ []) hn hs = record { at = λ v s hc h r. (hc, h, hs x s.current h r refl) }
  Ensures-scalar (x ∷ y ∷ l) hn hs = record { at = λ v s hc h r. (hc, h) }

module _ {I R : Db → Type 0} where
  pub Ensures-weaken :
      {A : Type 0} {P : Db → Type 0} {Q T : A → Db → Type 0} (m : Exec A)
      → Ensures I P m Q
      → ((d : Db) → I d → R d → P d)
      → ((a : A) (d : Db) → I d → Q a d → T a d)
      → Ensures I R m T
  Ensures-weaken m hm pre post = record {
    at = λ v s hc h r.
        let (x, s') = m s in Post-weaken I v post x s' (hm.at v s hc h (pre s.current h r));
  }

  pub Ensures-refresh : Ensures I R refresh (λ _ d. R d)
  unfolding refresh
  Ensures-refresh = Ensures-call

  pub Ensures-query : {A : Type 0} (f : Db → A) → Ensures I R (query f) (λ a d. R d × (a ≡ f d))
  unfolding query gets
  Ensures-query f = record {
    at = λ v s hc h r.
        let (x, s') = outcome s.faults s in
        Post-continue I v (λ _. gets f) (λ _. Ensures-gets f) x s'
          (Post-outcome I v R s.faults s hc h r);
  }

  Ensures-flushed : Ensures I R flush (λ _ d. R d × (constraints d ≡ true))
  unfolding flush
  Ensures-flushed = record {
    at = λ v s hc h r.
        let (x, s') = outcome s.faults s in
        Post-continue I v (λ _ t. unless_violated (constraints t.current) t)
          (λ _. record { at = λ v t tc th tr. passed I R v _ t tc th tr refl }) x s'
          (Post-outcome I v R s.faults s hc h r);
  }

  pub Ensures-flush : Ensures I R flush (λ _ d. R d)
  Ensures-flush = Ensures-weaken _ Ensures-flushed (λ d h r. r) (λ a d h q. q.0)

  pub Ensures-commit : Ensures I R commit (λ _ d. R d)
  unfolding commit
  Ensures-commit = record {
    at = λ v s hc h r.
        let (x, s') = flush s in
        Post-continue I v (λ _ t. (ok tt, record t { committed = t.current }))
          (λ _. record { at = λ v t tc th tr. ((th, or_true (not v) _ tr.1), th, tr.0) }) x s'
          (Ensures-flushed.at v s hc h r);
  }
