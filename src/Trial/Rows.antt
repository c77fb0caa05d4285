-- ===== src/Trial/Rows.antt =====
-- The two sides of `IsGrantedOnce` under the writes that the services make.
use fastapi_auth_service.Prelude.{
  ℕ, ◌≡◌, refl, sym, true, false, some, List, [], ◌∷◌, ◌++◌, ◌==◌, ◌&&◌, ◌+◌, if◌then◌else◌, select,
  head_option, update_where, arith, Bool-cases, inl, inr, ==_iff,
}
use fastapi_auth_service.Db.Schema.{Db, User, UserCredit, CreditTransaction}
use fastapi_auth_service.Db.Tables.{set_user, set_credit, add_transaction, user_by_id}
use fastapi_auth_service.Credit.Writes.{is_grant}
use fastapi_auth_service.Trial.{grants, has_consumed, IsGrantedOnce}

grants-append :
    (u : ℕ) (ts : List CreditTransaction) (t : CreditTransaction)
    → grants u (ts ++ t ∷ [])
      ≡ grants u ts + (if t.user_id == u && is_grant t.transaction_type then 1 else 0)
grants-append u [] t = omega arith
grants-append u (s ∷ ts) t = rw (grants-append u ts t) (omega arith)

-- A write to users that leaves their keys and flags.
pub record KeepsFlag (f : User → User) : Type 0 where
  pub id : (u : User) → (f u).id ≡ u.id
  pub flag : (u : User) → (f u).has_consumed_initial_trial ≡ u.has_consumed_initial_trial

has_consumed-update :
    (u k : ℕ) (f : User → User) (rs : List User)
    → KeepsFlag f
    → has_consumed u (update_where (λ r. r.id == k) f rs) ≡ has_consumed u rs
has_consumed-update u k f [] keeps = refl
has_consumed-update u k f (r ∷ rs) keeps =
    grind (arith, has_consumed-update u k f rs keeps, keeps.id r, keeps.flag r)

pub set_user-IsGrantedOnce :
    (k : ℕ) (f : User → User) (d : Db)
    → KeepsFlag f
    → IsGrantedOnce d
    → IsGrantedOnce (set_user k f d)
unfolding set_user
set_user-IsGrantedOnce k f d keeps h = record {
  for_user = λ u. rw (has_consumed-update u k f d.users keeps) (h.for_user u);
}

-- The flag of the row that a look-up by key finds.
pub has_consumed-found :
    (k : ℕ) (rs : List User) {u : User}
    → head_option (select (λ r. r.id == k) rs) ≡ some u
    → has_consumed k rs ≡ u.has_consumed_initial_trial
has_consumed-found k [] h = absurd (cc h)
has_consumed-found k (r ∷ rs) {u} h = grind (arith, has_consumed-found k rs {u = u})

-- Other credits than the trial's.
pub entry-IsGrantedOnce :
    (t : CreditTransaction) (u : ℕ) (f : UserCredit → UserCredit) (d : Db)
    → is_grant t.transaction_type ≡ false
    → IsGrantedOnce d
    → IsGrantedOnce (add_transaction t (set_credit u f d))
entry-IsGrantedOnce t u f d other h = record {
  for_user = λ v. rw (grants-append v d.transactions t, other) (ground (arith, h.for_user v));
}

-- A write that sets the flag of the users that it changes, and leaves their keys.
pub record SetsFlag (f : User → User) : Type 0 where
  pub id : (u : User) → (f u).id ≡ u.id
  pub flag : (u : User) → (f u).has_consumed_initial_trial ≡ true

has_consumed-set :
    (k : ℕ) (f : User → User) (rs : List User) {u : User}
    → SetsFlag f
    → head_option (select (λ r. r.id == k) rs) ≡ some u
    → has_consumed k (update_where (λ r. r.id == k) f rs) ≡ true
has_consumed-set k f [] sets h = absurd (cc h)
has_consumed-set k f (r ∷ rs) {u} sets h =
    grind (arith, has_consumed-set k f rs {u = u} sets, sets.id r, sets.flag r)

has_consumed-other :
    (k v : ℕ) (f : User → User) (rs : List User)
    → SetsFlag f
    → (k == v) ≡ false
    → has_consumed v (update_where (λ r. r.id == k) f rs) ≡ has_consumed v rs
has_consumed-other k v f [] sets ne = refl
has_consumed-other k v f (r ∷ rs) sets ne =
    grind (arith, has_consumed-other k v f rs sets ne, sets.id r)

-- The trial's grant, to a user whose flag is unset, sets the flag.
pub grant-IsGrantedOnce :
    (k c : ℕ) (t : CreditTransaction) (f : User → User) (g : UserCredit → UserCredit) (d : Db)
    {u : User}
    → SetsFlag f
    → t.user_id ≡ k
    → user_by_id k d ≡ some u
    → u.has_consumed_initial_trial ≡ false
    → IsGrantedOnce d
    → IsGrantedOnce (set_user k f (add_transaction t (set_credit c g d)))
unfolding set_user
grant-IsGrantedOnce k c t f g d {u} sets mine found unset h = record {
  for_user = λ v. elim (Bool-cases (k == v)) [
    | inl e ↦
        rw
          (
            grants-append v d.transactions t,
            sym ((==_iff k v).0 e),
            has_consumed-set k f d.users {u = u} sets found,
          )
          (ground (arith, h.for_user k, has_consumed-found k d.users {u = u} found))
    | inr e ↦
        rw (grants-append v d.transactions t, has_consumed-other k v f d.users sets e)
          (ground (arith, h.for_user v))
  ];
}
