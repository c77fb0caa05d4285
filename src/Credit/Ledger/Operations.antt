-- ===== src/Credit/Ledger/Operations.antt =====
-- The writes of the credit service to the ledger, as `CreditWrites` asks for them.
use fastapi_auth_service.Prelude.{◌≡◌, refl}
use fastapi_auth_service.Prelude.Int.{ℤ}
use fastapi_auth_service.Db.Schema.{TransactionType}
use fastapi_auth_service.Db.Tables.{set_subscription}
use fastapi_auth_service.Credit.Ledger.{IsBalanced, signed_as}
use fastapi_auth_service.Credit.Ledger.Service.{add_credits-Keeps}
use fastapi_auth_service.Credit.Writes.{CreditWrites, IsPurchase}

signed_as_purchase : (t : TransactionType) → IsPurchase t → (x : ℤ) → signed_as t x ≡ x
signed_as_purchase TransactionType.credit_used h x = absurd h
signed_as_purchase TransactionType.trial_credit_grant h x = absurd h
signed_as_purchase TransactionType.credit_added h x = refl
signed_as_purchase TransactionType.plan_purchase h x = refl
signed_as_purchase TransactionType.plan_renewal h x = refl
signed_as_purchase TransactionType.plan_upgrade h x = refl
signed_as_purchase TransactionType.one_time_purchase h x = refl

instance pub ledger_credit_writes : CreditWrites IsBalanced
unfolding set_subscription
ledger_credit_writes = record {
  subscription = λ id f d h. record { for_user = h.for_user; one_row = h.one_row };
  new_subscription = λ s d h. record { for_user = h.for_user; one_row = h.one_row };
  adds = λ test now u amount reference_id description type plan_id subscription_id money purchase.
      add_credits-Keeps test now u amount reference_id description type plan_id subscription_id
        money (signed_as_purchase type purchase);
}
