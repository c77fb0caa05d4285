-- ===== src/Trial.antt =====
-- The free trial's credits, which a user may be granted once: the transactions that grant them, and
-- the flag `has_consumed_initial_trial`.
pub mod Rows
pub mod Service
use fastapi_auth_service.Prelude.{
  ℕ, ◌+◌, Bool, true, false, List, [], ◌∷◌, ◌==◌, ◌&&◌, if◌then◌else◌, length, select, ◌≤◌,
}
use fastapi_auth_service.Db.Schema.{Db, User, CreditTransaction, TransactionType}
use fastapi_auth_service.Credit.Writes.{is_grant}

-- The number of a user's grants.
abbrev pub grants : ℕ → List CreditTransaction → ℕ
grants u [] = 0
grants u (t ∷ ts) = (if t.user_id == u && is_grant t.transaction_type then 1 else 0) + grants u ts

-- The flag of the user with this key; `false` without one.
abbrev pub has_consumed : ℕ → List User → Bool
has_consumed u [] = false
has_consumed u (r ∷ rs) = if r.id == u then r.has_consumed_initial_trial else has_consumed u rs

-- Who has been granted the trial's credits has been so once, and the flag says so.
pub record IsGrantedOnce (d : Db) : Type 0 where
  pub for_user : (u : ℕ) → grants u d.transactions ≤ (if has_consumed u d.users then 1 else 0)
