-- ===== src/Credit/Ledger.antt =====
-- The ledger behind the balances: what a user's balance should be, by the transactions on record.
pub mod Entries
pub mod Service
pub mod Operations
use fastapi_auth_service.Prelude.{ℕ, ◌≡◌, List, [], ◌∷◌, ◌==◌, if◌then◌else◌, length, select, ◌≤◌}
use fastapi_auth_service.Prelude.Int.{ℤ, pos, ◌+ℤ◌, ◌-ℤ◌}
use fastapi_auth_service.Db.Schema.{Db, UserCredit, CreditTransaction, TransactionType}

abbrev pub signed_as : TransactionType → ℤ → ℤ
signed_as TransactionType.credit_used amount = pos 0 -ℤ amount
signed_as _ amount = amount

-- What a transaction does to the balance: used credits count against it.
abbrev pub signed_amount : CreditTransaction → ℤ
signed_amount t = signed_as t.transaction_type t.amount

abbrev pub signed_total : ℕ → List CreditTransaction → ℤ
signed_total u [] = pos 0
signed_total u (t ∷ ts) = (if t.user_id == u then signed_amount t else pos 0) +ℤ signed_total u ts

-- The balance of a user, 0 for one without a credit row.
abbrev pub balance_of : ℕ → List UserCredit → ℤ
balance_of u [] = pos 0
balance_of u (c ∷ cs) = (if c.user_id == u then c.balance else pos 0) +ℤ balance_of u cs

-- Every balance is the signed sum of the user's transactions, and no user has two credit rows.
pub record IsBalanced (d : Db) : Type 0 where
  pub for_user : (u : ℕ) → balance_of u d.credits ≡ signed_total u d.transactions
  pub one_row : (u : ℕ) → length (select (λ c. c.user_id == u) d.credits) ≤ 1
