-- ===== src/Credit/Plans.antt =====
-- `PlanService` (app/services/credit/plan.py) and `_find_matching_plan` (transaction.py).
pub mod Order
use fastapi_auth_service.Prelude.{
  ℕ, ◌&&◌, Option, none, some, List, [], ◌∷◌, ◌==◌, eq_option, if◌then◌else◌, select, head_option,
}
use fastapi_auth_service.Prelude.Int.{leb_ℤ}
use fastapi_auth_service.Db.Schema.{Text, Plan, Subscription}
use fastapi_auth_service.Db.Session.{Exec, pure, ◌>>=◌, query, scalar_one_or_none}

unfoldable pub get_plan_by_id : ℕ → Exec (Option Plan)
get_plan_by_id plan_id = do
  rows ← query (λ d. select (λ p. p.id == plan_id && p.is_active) d.plans)
  scalar_one_or_none rows

-- The order by renewal date does not matter: two rows raise.
unfoldable pub get_active_subscription : ℕ → Exec (Option Subscription)
get_active_subscription user_id = do
  rows ← query (λ d. select (λ s. s.user_id == user_id && s.is_active) d.subscriptions)
  scalar_one_or_none rows

unfoldable pub get_subscription_by_id : ℕ → Exec (Option Subscription)
get_subscription_by_id subscription_id = do
  rows ← query (λ d. select (λ s. s.id == subscription_id) d.subscriptions)
  scalar_one_or_none rows

unfoldable pub get_subscription_by_stripe_id : Text → Exec (Option Subscription)
get_subscription_by_stripe_id stripe_id = do
  rows ←
      query (λ d. select (λ s. eq_option s.stripe_subscription_id (some stripe_id)) d.subscriptions)
  scalar_one_or_none rows

-- `ORDER BY price`, rows of one price in the order of insertion.
unfoldable pub insert_by_price : Plan → List Plan → List Plan
insert_by_price p [] = p ∷ []
insert_by_price p (q ∷ ps) =
    let rest = insert_by_price p ps in if leb_ℤ p.price q.price then p ∷ q ∷ ps else q ∷ rest

unfoldable pub order_by_price : List Plan → List Plan
unfolding insert_by_price
order_by_price [] = []
order_by_price (p ∷ ps) = insert_by_price p (order_by_price ps)

unfoldable pub get_all_active_plans : Exec (List Plan)
unfolding order_by_price
get_all_active_plans = query (λ d. order_by_price (select (λ p. p.is_active) d.plans))

abbrev pub plan_key : Option Plan → Option ℕ
plan_key none = none
plan_key (some p) = some p.id

-- The cheapest active plan with the Stripe price; none for the empty text.
unfoldable pub find_matching_plan : Text → Exec (Option ℕ)
unfolding get_all_active_plans
find_matching_plan stripe_price_id = if stripe_price_id == 0 then pure none else do
  plans ← get_all_active_plans
  pure (
      plan_key
        (head_option (select (λ p. eq_option p.stripe_price_id (some stripe_price_id)) plans)))
