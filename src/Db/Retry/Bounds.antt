-- ===== src/Db/Retry/Bounds.antt =====
-- The number of attempts and the delays of `with_exponential_backoff` (app/core/db_utils.py).
use fastapi_auth_service.Prelude.{
  ℕ, zero, suc, ◌+◌, ◌≤◌, ◌<◌, ◌≡◌, refl, sym, ap, ◌∙◌, Bool, true, false, List, [], ◌∷◌, leb, all,
  length, min, arith, Bool-cases, inl, inr,
}
use fastapi_auth_service.Db.Retry.{
  settle, proceed, Attempt, Answer, should_retry, wrapper, with_exponential_backoff,
}

abbrev pub IsBounded : {A : Type 0} → ℕ → ℕ → Answer A × List ℕ → Type 0
IsBounded retries max_delay r = (length r.1 ≤ retries) × (all (λ d. leb d max_delay) r.1 ≡ true)

settle-IsBounded : {A : Type 0} (x : Attempt A) (max_delay : ℕ) → IsBounded 0 max_delay (settle x)
unfolding settle
settle-IsBounded (Attempt.returned a) max_delay = ((omega arith), refl)
settle-IsBounded (Attempt.raised e) max_delay = ((omega arith), refl)

proceed-IsBounded :
    {A : Type 0} (x : Attempt A) (n scaled max_delay : ℕ) (rest : Answer A × List ℕ)
    → IsBounded n max_delay rest
    → IsBounded (suc n) max_delay (proceed x (min scaled max_delay) rest)
unfolding proceed
proceed-IsBounded (Attempt.returned a) n scaled max_delay rest h = (omega arith, refl)
proceed-IsBounded (Attempt.raised e) n scaled max_delay rest h =
    elim (Bool-cases (should_retry e)) [
      | inl again ↦ rw again (ground (arith), ground (arith))
      | inr over ↦ rw over (omega arith, refl)
    ]

module _ {A : Type 0} (func : ℕ → Attempt A) (scale : ℕ → ℕ → ℕ) (max_delay : ℕ) where
  wrapper-bounds :
      (retries attempt delay : ℕ)
      → IsBounded retries max_delay (wrapper func scale max_delay retries attempt delay)
  unfolding wrapper
  wrapper-bounds zero attempt delay = settle-IsBounded (func attempt) max_delay
  wrapper-bounds (suc retries) attempt delay =
      proceed-IsBounded (func attempt) retries _ max_delay _
        (wrapper-bounds retries (suc attempt) _)

  -- with_exponential_backoff ends after no more delays than the number of retries, none of which
  -- is longer than the longest that is allowed, whatever the function does and the jitter is.
  pub with_exponential_backoff-bounds :
      (max_retries initial_delay : ℕ)
      → (length (with_exponential_backoff func scale max_delay max_retries initial_delay).1
          ≤ max_retries)
        × (all
              (λ d. leb d max_delay)
              (with_exponential_backoff func scale max_delay max_retries initial_delay).1
            ≡ true)
  unfolding with_exponential_backoff
  with_exponential_backoff-bounds max_retries initial_delay =
      wrapper-bounds max_retries 0 initial_delay

-- Whether the wrapper tries again after an attempt.
abbrev pub is_retried : {A : Type 0} → Attempt A → Bool
is_retried (Attempt.returned a) = false
is_retried (Attempt.raised e) = should_retry e

proceed-retried :
    {A : Type 0} (x : Attempt A) (delay : ℕ) (rest : Answer A × List ℕ)
    → is_retried x ≡ true
    → proceed x delay rest ≡ (rest.0, delay ∷ rest.1)
unfolding proceed
proceed-retried (Attempt.returned a) delay rest h = absurd (cc h)
proceed-retried (Attempt.raised e) delay rest h = rw h refl

module _ {A : Type 0} (func : ℕ → Attempt A) (scale : ℕ → ℕ → ℕ) (max_delay : ℕ) where
  wrapper-first :
      (spare attempt delay : ℕ) (a : A)
      → func attempt ≡ Attempt.returned a
      → wrapper func scale max_delay spare attempt delay ≡ (Answer.returned a, [])
  unfolding wrapper settle proceed
  wrapper-first zero attempt delay a e = rw e refl
  wrapper-first (suc spare) attempt delay a e = rw e refl

  wrapper-returned :
      (n retries attempt delay : ℕ) (a : A)
      → n ≤ retries
      → func (attempt + n) ≡ Attempt.returned a
      → ((i : ℕ) → i < n → is_retried (func (attempt + i)) ≡ true)
      → ((wrapper func scale max_delay retries attempt delay).0 ≡ Answer.returned a)
        × (length (wrapper func scale max_delay retries attempt delay).1 ≡ n)
  unfolding wrapper
  wrapper-returned zero spare attempt delay a b e k =
      let same : attempt + 0 ≡ attempt = omega arith in
      rw (wrapper-first spare attempt delay a (ap func (sym same) ∙ e)) (refl, refl)
  wrapper-returned (suc n) zero attempt delay a b e k = absurd (omega arith)
  wrapper-returned (suc n) (suc retries) attempt delay a b e k =
      let next : ℕ = min (scale attempt delay) max_delay in
      let same : attempt + 0 ≡ attempt = omega arith in
      let rest : ((wrapper func scale max_delay retries (suc attempt) next).0 ≡ Answer.returned a)
          × (length (wrapper func scale max_delay retries (suc attempt) next).1 ≡ n) =
        wrapper-returned n retries (suc attempt) next a (omega arith) (ap func (omega arith) ∙ e)
          (λ i h. ap (λ j. is_retried (func j)) (omega arith) ∙ k (suc i) (omega arith)) in
      rw
        (proceed-retried (func attempt) next
          (wrapper func scale max_delay retries (suc attempt) next)
          (ap (λ j. is_retried (func j)) (sym same) ∙ k 0 (omega arith)))
        (rest.0, ap suc rest.1)

  -- with_exponential_backoff returns what the function returns at attempt n, counted from 0, after
  -- n delays, where n is at most the number of retries and every earlier attempt fails with an
  -- error that is retried.
  pub with_exponential_backoff-returned :
      (n retries initial_delay : ℕ) (a : A)
      → n ≤ retries
      → func n ≡ Attempt.returned a
      → ((i : ℕ) → i < n → is_retried (func i) ≡ true)
      → ((with_exponential_backoff func scale max_delay retries initial_delay).0
          ≡ Answer.returned a)
        × (length (with_exponential_backoff func scale max_delay retries initial_delay).1 ≡ n)
  unfolding with_exponential_backoff
  with_exponential_backoff-returned n retries initial_delay a b e k =
      wrapper-returned n retries 0 initial_delay a b (ap func (omega arith) ∙ e)
        (λ i h. ap (λ j. is_retried (func j)) (omega arith) ∙ k i h)
