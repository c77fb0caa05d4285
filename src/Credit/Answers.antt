-- ===== src/Credit/Answers.antt =====
-- What the writes and the answers of `BaseCreditService` (app/services/credit/base.py) share.
use fastapi_auth_service.Prelude.{
  ℕ, ◌≡◌, refl, Bool, Option, List, [], ◌∷◌, ◌==◌, map, update_where, if◌then◌else◌, arith,
  Bool-cases, inl, inr,
}
use fastapi_auth_service.Prelude.Int.{ℤ, pos, leb_ℤ}
use fastapi_auth_service.Db.Schema.{Text, Db, UserCredit, CreditTransaction, constraints}
use fastapi_auth_service.Db.Tables.{add_transaction, set_credit}
use fastapi_auth_service.Db.Session.{http, ok, err, Result}
use fastapi_auth_service.Credit.Account.{TransactionResponse, create_transaction_response}

owners-update :
    (v : ℕ) (f : UserCredit → UserCredit) (cs : List UserCredit)
    → ((c : UserCredit) → (f c).user_id ≡ c.user_id)
    → map (λ c. c.user_id) (update_where (λ c. c.user_id == v) f cs) ≡ map (λ c. c.user_id) cs
owners-update v f [] h = refl
owners-update v f (c ∷ cs) h = grind (arith, owners-update v f cs h, h c)

pub constraints-post :
    (t : CreditTransaction) (u : ℕ) (f : UserCredit → UserCredit) (d : Db)
    → ((c : UserCredit) → (f c).user_id ≡ c.user_id)
    → constraints (add_transaction t (set_credit u f d)) ≡ constraints d
unfolding constraints
constraints-post t u f d h = rw (owners-update u f d.credits h) refl

-- An answer that could not be built becomes an HTTP 500.
abbrev pub or_http_500 : {A : Type 0} → Result A → Result A
or_http_500 (ok a) = ok a
or_http_500 (err e) = err (http 500)

-- The key, the amount and the new balance that an answer tells.
abbrev pub told : Result TransactionResponse → Result (ℕ × ℤ × ℤ)
told (ok r) = ok (r.id, r.amount, r.new_balance)
told (err e) = err e

pub told-response :
    (test : Text → Bool) (t : CreditTransaction) (balance : ℤ) (money : Option ℤ)
    → told (or_http_500 (create_transaction_response test t balance money))
      ≡ (if leb_ℤ t.amount (pos 0) then err (http 500) else ok (t.id, t.amount, balance))
unfolding create_transaction_response
told-response test t balance money = elim (Bool-cases (leb_ℤ t.amount (pos 0))) [
  | inl e ↦ rw e refl
  | inr e ↦ rw e refl
]
