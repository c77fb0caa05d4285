-- ===== src/Credit/Ledger/Entries.antt =====
-- The two sums of the ledger under the writes that the credit service makes.
use mathlib.Core.Path.{subst}
use fastapi_auth_service.Prelude.{
  ℕ, ◌≡◌, refl, List, [], ◌∷◌, ◌++◌, ◌==◌, if◌then◌else◌, select, update_where, arith, ◌+◌, ◌≤◌,
  length, head_option, some, ==_iff, Bool-cases, inl, inr,
}
use fastapi_auth_service.Prelude.Int.{ℤ, pos, ◌+ℤ◌, int_laws}
use fastapi_auth_service.Db.Schema.{Db, UserCredit, CreditTransaction}
use fastapi_auth_service.Db.Tables.{add_credit, add_transaction, set_credit}
use fastapi_auth_service.Credit.Ledger.{signed_amount, signed_total, balance_of, IsBalanced}

-- A write to a credit row that moves its balance by `x` and leaves its owner.
pub record Adjusts (x : ℤ) (f : UserCredit → UserCredit) : Type 0 where
  pub balance : (c : UserCredit) → (f c).balance ≡ c.balance +ℤ x
  pub owner : (c : UserCredit) → (f c).user_id ≡ c.user_id

-- The user has exactly one credit row.
pub record HasRow (u : ℕ) (d : Db) : Type 0 where
  pub row : UserCredit
  pub only : select (λ c. c.user_id == u) d.credits ≡ row ∷ []

pub update_where-none :
    (v : ℕ) (f : UserCredit → UserCredit) (cs : List UserCredit)
    → select (λ c. c.user_id == v) cs ≡ []
    → update_where (λ c. c.user_id == v) f cs ≡ cs
update_where-none v f [] h = refl
update_where-none v f (c ∷ cs) h = ground (arith, update_where-none v f cs)

module _ (v u : ℕ) {x : ℤ} {f : UserCredit → UserCredit} (adjusts : Adjusts x f) where
  balance_of-update :
      (cs : List UserCredit) {c : UserCredit}
      → select (λ r. r.user_id == v) cs ≡ c ∷ []
      → balance_of u (update_where (λ r. r.user_id == v) f cs)
        ≡ balance_of u cs +ℤ (if v == u then x else pos 0)
  balance_of-update [] h = ground arith
  balance_of-update (c ∷ cs) h =
      grind (
        int_laws,
        update_where-none v f cs,
        balance_of-update cs,
        adjusts.balance c,
        adjusts.owner c,
      )

-- A write that leaves the owners leaves the number of a user's rows.
length-select-update :
    (v u : ℕ) {x : ℤ} {f : UserCredit → UserCredit} (cs : List UserCredit)
    → Adjusts x f
    → length (select (λ r. r.user_id == u) (update_where (λ r. r.user_id == v) f cs))
      ≡ length (select (λ r. r.user_id == u) cs)
length-select-update v u [] adjusts = refl
length-select-update v u (c ∷ cs) adjusts =
    grind (arith, length-select-update v u cs adjusts, adjusts.owner c)

length-select-append :
    (u : ℕ) (cs : List UserCredit) (c : UserCredit)
    → length (select (λ r. r.user_id == u) (cs ++ c ∷ []))
      ≡ length (select (λ r. r.user_id == u) cs) + (if c.user_id == u then 1 else 0)
length-select-append u [] c = ground arith
length-select-append u (s ∷ cs) c = ground (arith, length-select-append u cs c)

signed_total-append :
    (u : ℕ) (ts : List CreditTransaction) (t : CreditTransaction)
    → signed_total u (ts ++ t ∷ [])
      ≡ signed_total u ts +ℤ (if t.user_id == u then signed_amount t else pos 0)
signed_total-append u [] t = omega int_laws
signed_total-append u (s ∷ ts) t = rw (signed_total-append u ts t) (omega int_laws)

balance_of-append :
    (u : ℕ) (cs : List UserCredit) (c : UserCredit)
    → balance_of u (cs ++ c ∷ []) ≡ balance_of u cs +ℤ (if c.user_id == u then c.balance else pos 0)
balance_of-append u [] c = omega int_laws
balance_of-append u (s ∷ cs) c = rw (balance_of-append u cs c) (omega int_laws)

pub select-append_new :
    (v : ℕ) (cs : List UserCredit) (c : UserCredit)
    → select (λ r. r.user_id == v) cs ≡ []
    → c.user_id ≡ v
    → select (λ r. r.user_id == v) (cs ++ c ∷ []) ≡ c ∷ []
select-append_new v [] c h e = ground arith
select-append_new v (s ∷ cs) c h e = ground (arith, select-append_new v cs c)

-- A balance that moves by what the transaction added with it says keeps the ledger.
pub entry-IsBalanced :
    (u : ℕ) {x : ℤ} {f : UserCredit → UserCredit} (t : CreditTransaction) (d : Db)
    → Adjusts x f
    → HasRow u d
    → t.user_id ≡ u
    → signed_amount t ≡ x
    → IsBalanced d
    → IsBalanced (add_transaction t (set_credit u f d))
entry-IsBalanced u t d adjusts has mine moved h = record {
  for_user = λ v. rw (
    balance_of-update u v adjusts d.credits has.only,
    signed_total-append v d.transactions t,
    mine,
    moved,
    h.for_user v,
  );
  one_row = λ v. rw (length-select-update u v d.credits adjusts) (h.one_row v);
}

-- A new credit row starts at 0, for a user without transactions in the ledger.
pub add_credit-IsBalanced :
    (c : UserCredit) (d : Db)
    → c.balance ≡ pos 0
    → select (λ r. r.user_id == c.user_id) d.credits ≡ []
    → IsBalanced d
    → IsBalanced (add_credit c d)
add_credit-IsBalanced c d zero_balance none_yet h = record {
  for_user = λ v. rw (balance_of-append v d.credits c, zero_balance, h.for_user v) (grind int_laws);
  one_row = λ v. elim (Bool-cases (c.user_id == v)) [
    | inl e ↦ rw (length-select-append v d.credits c) (
        ground (
          arith,
          h.one_row v,
          subst (λ k. select (λ r. r.user_id == k) d.credits ≡ []) ((==_iff c.user_id v).0 e)
              none_yet,
        ))
    | inr e ↦ rw (length-select-append v d.credits c) (ground (arith, h.one_row v))
  ];
}

-- With at most one row, the first that a query finds is the only one.
pub HasRow-of_head :
    (u : ℕ) (d : Db) {c : UserCredit}
    → IsBalanced d
    → head_option (select (λ r. r.user_id == u) d.credits) ≡ some c
    → HasRow u d
HasRow-of_head u d h e = go (select (λ r. r.user_id == u) d.credits) refl (h.one_row u) e
  where
    go :
        (l : List UserCredit) {c : UserCredit}
        → select (λ r. r.user_id == u) d.credits ≡ l
        → length l ≤ 1
        → head_option l ≡ some c
        → HasRow u d
    go [] eq le e = absurd (cc e)
    go (x ∷ []) eq le e = record { row = x; only = eq }
    go (x ∷ y ∷ l) eq le e = absurd (omega arith)

pub add_credit-HasRow :
    (u : ℕ) (c : UserCredit) (d : Db)
    → c.user_id ≡ u
    → select (λ r. r.user_id == u) d.credits ≡ []
    → HasRow u (add_credit c d)
add_credit-HasRow u c d mine none_yet = record {
  row = c;
  only = select-append_new u d.credits c none_yet mine;
}
