-- ===== src/Db/Tables.antt =====
-- Reads and writes of single rows, by primary key or by the key that a query selects on.
use fastapi_auth_service.Prelude.{
  ℕ, ◌+◌, Option, [], ◌∷◌, ◌++◌, ◌==◌, select, update_where, head_option,
}
use fastapi_auth_service.Db.Schema.{
  User, AccountStatus, UserCredit, CreditTransaction, Subscription, Db,
}

-- Writes to the attributes of one object.
unfoldable pub set_subscription : ℕ → (Subscription → Subscription) → Db → Db
set_subscription key f d = record d {
  subscriptions = update_where (λ s. s.id == key) f d.subscriptions;
}

unfoldable pub set_user : ℕ → (User → User) → Db → Db
set_user key f d = record d { users = update_where (λ u. u.id == key) f d.users }

-- `user.account_status = status`.
unfoldable pub set_account_status : ℕ → AccountStatus → Db → Db
unfolding set_user
set_account_status key status d = set_user key (λ u. record u { account_status = status }) d

-- `db.add(row)`: the row goes to the end of its table, and the next primary key is taken.
abbrev pub add_user : User → Db → Db
add_user u d = record d { users = d.users ++ u ∷ []; next_id = d.next_id + 1 }

abbrev pub add_credit : UserCredit → Db → Db
add_credit c d = record d { credits = d.credits ++ c ∷ []; next_id = d.next_id + 1 }

abbrev pub add_transaction : CreditTransaction → Db → Db
add_transaction t d = record d { transactions = d.transactions ++ t ∷ []; next_id = d.next_id + 1 }

abbrev pub add_subscription : Subscription → Db → Db
add_subscription s d = record d {
  subscriptions = d.subscriptions ++ s ∷ [];
  next_id = d.next_id + 1;
}

-- Writes to a user's credit row. `user_id` is unique in `user_credits`.
abbrev pub set_credit : ℕ → (UserCredit → UserCredit) → Db → Db
set_credit user f d = record d { credits = update_where (λ c. c.user_id == user) f d.credits }

-- `db.get(User, key)`.
abbrev pub user_by_id : ℕ → Db → Option User
user_by_id key d = head_option (select (λ u. u.id == key) d.users)
