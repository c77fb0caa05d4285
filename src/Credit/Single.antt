-- ===== src/Credit/Single.antt =====
-- The active subscriptions of a user, under `purchase_plan` (app/services/credit/transaction.py).
pub mod Purchase
use fastapi_auth_service.Prelude.{
  ℕ, ◌+◌, ◌≤◌, ◌≡◌, refl, Bool, true, false, List, [], ◌∷◌, ◌++◌, ◌==◌, ◌&&◌, select, length,
  update_where, if◌then◌else◌, arith,
}
use fastapi_auth_service.Db.Schema.{Db, Subscription}

-- The user's active subscriptions.
abbrev pub active : ℕ → List Subscription → List Subscription
active u l = select (λ s. s.user_id == u && s.is_active) l

-- No user has two active subscriptions.
pub record IsSingle (d : Db) : Type 0 where
  pub for_user : (u : ℕ) → length (active u d.subscriptions) ≤ 1

-- A write that leaves the owner, and activates nothing.
pub record ActivatesNone (f : Subscription → Subscription) : Type 0 where
  pub owner : (s : Subscription) → (f s).user_id ≡ s.user_id
  pub active : (s : Subscription) → (f s).is_active ≡ true → s.is_active ≡ true

pub length-active-update :
    (u k : ℕ) (f : Subscription → Subscription) (l : List Subscription)
    → ActivatesNone f
    → length (active u (update_where (λ s. s.id == k) f l)) ≤ length (active u l)
length-active-update u k f [] h = omega arith
length-active-update u k f (s ∷ l) h =
    grind (arith, length-active-update u k f l h, h.owner s, h.active s)

pub length-active-append :
    (u : ℕ) (l : List Subscription) (s : Subscription)
    → length (active u (l ++ s ∷ []))
      ≡ length (active u l) + (if s.user_id == u && s.is_active then 1 else 0)
length-active-append u [] s = ground arith
length-active-append u (x ∷ l) s = ground (arith, length-active-append u l s)

-- A write that deactivates.
pub record Deactivates (f : Subscription → Subscription) : Type 0 where
  pub owner : (s : Subscription) → (f s).user_id ≡ s.user_id
  pub inactive : (s : Subscription) → (f s).is_active ≡ false

active-update_none :
    (u k : ℕ) (f : Subscription → Subscription) (l : List Subscription)
    → Deactivates f
    → active u l ≡ []
    → active u (update_where (λ s. s.id == k) f l) ≡ []
active-update_none u k f [] h e = refl
active-update_none u k f (s ∷ l) h e =
    grind (arith, active-update_none u k f l h, h.owner s, h.inactive s)

pub active-update_only :
    (u : ℕ) (f : Subscription → Subscription) (l : List Subscription) (s : Subscription)
    → Deactivates f
    → active u l ≡ s ∷ []
    → active u (update_where (λ r. r.id == s.id) f l) ≡ []
active-update_only u f [] s h e = absurd (cc e)
active-update_only u f (x ∷ l) s h e =
    grind (
      arith,
      active-update_only u f l s h,
      active-update_none u s.id f l h,
      h.owner x,
      h.inactive x,
    )
