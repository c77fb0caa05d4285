-- ===== src/Db/OnlyHttp.antt =====
-- Session code whose exceptions are HTTP errors, the ones that FastAPI answers with their status, or,
-- where `b` allows it, those of a rollback that fails.
use fastapi_auth_service.Prelude.{◌≡◌, refl, Bool, true, false, if◌then◌else◌}
use fastapi_auth_service.Db.Session.{
  Exn, http, Exec, Result, ok, err, Session, pure, raise, ◌>>=◌, try_except, continue, handle,
  rollback, rollback_failed, rolled_back, outcome,
}

abbrev pub is_http_or : {A : Type 0} → Bool → Result A → Bool
is_http_or b (ok a) = true
is_http_or b (err (http status)) = true
is_http_or b (err (rollback_failed e)) = b
is_http_or b (err e) = false

abbrev pub is_http : {A : Type 0} → Result A → Bool
is_http r = is_http_or false r

pub record OnlyHttp {A : Type 0} (b : Bool) (m : Exec A) : Type 0 where
  pub at : (s : Session) → is_http_or b (m s).0 ≡ true

pub OnlyHttp-pure : {b : Bool} {A : Type 0} (a : A) → OnlyHttp b (pure a)
unfolding pure
OnlyHttp-pure a = record { at = λ s. refl }

pub OnlyHttp-raise : {b : Bool} {A : Type 0} (status : _) → OnlyHttp b (raise {A = A} (http status))
unfolding raise
OnlyHttp-raise status = record { at = λ s. refl }

handled :
    {b : Bool} {A : Type 0} (k : Exn → Exec A) (r : Result A) (s : Session)
    → ((e : Exn) → OnlyHttp b (k e))
    → is_http_or b (handle r k s).0 ≡ true
handled k (ok a) s h = refl
handled k (err e) s h = (h e).at s

pub OnlyHttp-try :
    {b : Bool} {A : Type 0} (m : Exec A) (k : Exn → Exec A)
    → ((e : Exn) → OnlyHttp b (k e))
    → OnlyHttp b (try_except m k)
unfolding try_except
OnlyHttp-try m k h = record { at = λ s. let (r, s') = m s in handled k r s' h }

continued :
    {b : Bool} {A B : Type 0} (f : A → Exec B) (r : Result A) (s : Session)
    → is_http_or b r ≡ true
    → ((a : A) → OnlyHttp b (f a))
    → is_http_or b (continue r f s).0 ≡ true
continued f (ok a) s h hf = (hf a).at s
continued f (err (http status)) s h hf = refl
continued f (err e) s h hf = h

pub OnlyHttp-bind :
    {b : Bool} {A B : Type 0} (m : Exec A) (f : A → Exec B)
    → OnlyHttp b m
    → ((a : A) → OnlyHttp b (f a))
    → OnlyHttp b (m >>= f)
unfolding ◌>>=◌
OnlyHttp-bind m f h hf = record { at = λ s. let (r, s') = m s in continued f r s' (h.at s) hf }

pub OnlyHttp-if :
    {b : Bool} {A : Type 0} (c : Bool) (m n : Exec A)
    → OnlyHttp b m
    → OnlyHttp b n
    → OnlyHttp b (if c then m else n)
OnlyHttp-if true m n hm hn = hm
OnlyHttp-if false m n hm hn = hn

rolled_back-http :
    (r : Result (Unit {0})) (s : Session) → is_http_or true (rolled_back r s).0 ≡ true
rolled_back-http (ok x) s = refl
rolled_back-http (err e) s = refl

pub OnlyHttp-rollback : OnlyHttp true rollback
unfolding rollback
OnlyHttp-rollback = record { at = λ s. let (r, s') = outcome s.faults s in rolled_back-http r s' }
