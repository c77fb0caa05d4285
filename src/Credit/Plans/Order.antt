-- ===== src/Credit/Plans/Order.antt =====
-- The order of `get_all_active_plans`, and the choice of `_find_matching_plan`
-- (app/services/credit/transaction.py).
use fastapi_auth_service.Prelude.{
  ℕ, ◌≡◌, refl, sym, ◌∙◌, Bool, true, false, Option, none, some, List, [], ◌∷◌, ◌&&◌, ◌||◌, not,
  ◌⊎◌, ◌==◌, eq_option, select, all, head_option, arith,
}
use fastapi_auth_service.Prelude.Int.{leb_ℤ}
use fastapi_auth_service.Db.Schema.{Text, Db, Plan}
use fastapi_auth_service.Db.Session.{ok, fresh, ◌>>=◌}
use fastapi_auth_service.Credit.Plans.{
  insert_by_price, order_by_price, get_all_active_plans, plan_key, find_matching_plan,
}

-- Each price is at most the next ones.
abbrev pub ascending : List Plan → Bool
ascending [] = true
ascending (p ∷ ps) = all (λ q. leb_ℤ p.price q.price) ps && ascending ps

all-insert :
    (f : Plan → Bool) (p : Plan) (ps : List Plan) → all f (insert_by_price p ps) ≡ (f p && all f ps)
unfolding insert_by_price
all-insert f p [] = refl
all-insert f p (q ∷ ps) = grind (arith, all-insert f p ps)

all-order : (f : Plan → Bool) (ps : List Plan) → all f (order_by_price ps) ≡ all f ps
unfolding order_by_price
all-order f [] = refl
all-order f (p ∷ ps) = rw (all-insert f p (order_by_price ps), all-order f ps) refl

all-weaken :
    (p q : Plan) (ps : List Plan)
    → leb_ℤ p.price q.price ≡ true
    → all (λ r. leb_ℤ q.price r.price) ps ≡ true
    → all (λ r. leb_ℤ p.price r.price) ps ≡ true
all-weaken p q [] h e = refl
all-weaken p q (r ∷ ps) h e = ground (arith, all-weaken p q ps h)

ascending-insert :
    (p : Plan) (ps : List Plan) → ascending ps ≡ true → ascending (insert_by_price p ps) ≡ true
unfolding insert_by_price
ascending-insert p [] h = refl
ascending-insert p (q ∷ ps) h =
    grind (
      arith,
      ascending-insert p ps,
      all-insert (λ r. leb_ℤ q.price r.price) p ps,
      all-weaken p q ps,
    )

ascending-order : (ps : List Plan) → ascending (order_by_price ps) ≡ true
unfolding order_by_price
ascending-order [] = refl
ascending-order (p ∷ ps) = ascending-insert p (order_by_price ps) (ascending-order ps)

abbrev pub IsIn : Plan → List Plan → Type 0
IsIn p [] = ⊥
IsIn p (q ∷ qs) = (p ≡ q) ⊎ IsIn p qs

IsIn-select : (f : Plan → Bool) (p : Plan) (ps : List Plan) → IsIn p (select f ps) → IsIn p ps
IsIn-select f p [] h = h
IsIn-select f p (q ∷ ps) h = ground (arith, IsIn-select f p ps)

IsIn-insert : (p q : Plan) (ps : List Plan) → IsIn p (insert_by_price q ps) → (p ≡ q) ⊎ IsIn p ps
unfolding insert_by_price
IsIn-insert p q [] h = h
IsIn-insert p q (r ∷ ps) h = ground (arith, IsIn-insert p q ps)

IsIn-order : (p : Plan) (ps : List Plan) → IsIn p (order_by_price ps) → IsIn p ps
unfolding order_by_price
IsIn-order p [] h = h
IsIn-order p (q ∷ ps) h = ground (arith, IsIn-order p ps, IsIn-insert p q (order_by_price ps) h)

all-select :
    (f g : Plan → Bool) (ps : List Plan) → all f (select g ps) ≡ all (λ q. not (g q) || f q) ps
all-select f g [] = refl
all-select f g (q ∷ ps) = grind (arith, all-select f g ps)

-- An active plan with this Stripe price.
abbrev pub offers : Text → Plan → Bool
offers t q = q.is_active && eq_option q.stripe_price_id (some t)

-- The key of a cheapest plan of those that offer the price; none where none does.
abbrev pub Cheapest : Text → List Plan → Option ℕ → Type 0
Cheapest t plans none = all (λ q. not (offers t q)) plans ≡ true
Cheapest t plans (some k) =
    (p : Plan) × (p.id ≡ k)
    × IsIn p plans
    × (all (λ q. not (offers t q) || leb_ℤ p.price q.price) plans ≡ true)
    × (offers t p ≡ true)

none-selected :
    (f : Plan → Bool) (ps : List Plan)
    → head_option (select f ps) ≡ none
    → all (λ q. not (f q)) ps ≡ true
none-selected f [] h = refl
none-selected f (q ∷ ps) h = ground (arith, none-selected f ps)

all-implied :
    (f g : Plan → Bool) (ps : List Plan) → all g ps ≡ true → all (λ q. not (f q) || g q) ps ≡ true
all-implied f g [] h = refl
all-implied f g (q ∷ ps) h = ground (arith, all-implied f g ps)

first-selected :
    (f : Plan → Bool) (ps : List Plan) (p : Plan)
    → head_option (select f ps) ≡ some p
    → ascending ps ≡ true
    → all (λ q. not (f q) || leb_ℤ p.price q.price) ps ≡ true
first-selected f [] p h e = refl
first-selected f (q ∷ ps) p h e = grind (
  arith,
  first-selected f ps p,
  all-implied f (λ r. leb_ℤ q.price r.price) ps,
  all-implied f (λ r. leb_ℤ p.price r.price) ps,
)

first-IsIn :
    (f : Plan → Bool) (ps : List Plan) (p : Plan)
    → head_option (select f ps) ≡ some p
    → IsIn p ps × (f p ≡ true)
first-IsIn f [] p h = absurd (cc h)
first-IsIn f (q ∷ ps) p h = grind (arith, first-IsIn f ps p)

all-same : (f g : Plan → Bool) (ps : List Plan) → ((q : Plan) → f q ≡ g q) → all f ps ≡ all g ps
all-same f g [] h = refl
all-same f g (q ∷ ps) h = rw (h q, all-same f g ps h) refl

selected-IsIn : (f : Plan → Bool) (p : Plan) (ps : List Plan) → IsIn p (select f ps) → f p ≡ true
selected-IsIn f p [] h = absurd h
selected-IsIn f p (q ∷ ps) h = grind (arith, selected-IsIn f p ps)

all-active :
    (g : Plan → Bool) (plans : List Plan)
    → all g (order_by_price (select (λ p. p.is_active) plans)) ≡ true
    → all (λ q. not q.is_active || g q) plans ≡ true
all-active g plans h =
    sym (all-order g (select (λ p. p.is_active) plans) ∙ all-select g (λ p. p.is_active) plans) ∙ h

de_morgan : (a b : Bool) → (not a || not b) ≡ not (a && b)
de_morgan true b = refl
de_morgan false b = refl

curry : (a b c : Bool) → (not a || (not b || c)) ≡ (not (a && b) || c)
curry true b c = refl
curry false b c = refl

abbrev has_price : Text → Plan → Bool
has_price t q = eq_option q.stripe_price_id (some t)

abbrev by_price : List Plan → List Plan
by_price plans = order_by_price (select (λ q. q.is_active) plans)

Cheapest-order :
    (t : Text) (plans : List Plan) (found : Option Plan)
    → head_option (
        select
          (λ p. eq_option p.stripe_price_id (some t))
          (order_by_price (select (λ p. p.is_active) plans)))
      ≡ found
    → Cheapest t plans (plan_key found)
Cheapest-order t plans none h =
    sym (all-same _ _ plans (λ q. de_morgan q.is_active (eq_option q.stripe_price_id (some t))))
    ∙ all-active _ plans (none-selected (has_price t) (by_price plans) h)
Cheapest-order t plans (some p) h =
    let (there, matches) = first-IsIn (has_price t) (by_price plans) p h in
    let chosen = IsIn-order p _ there in
    (
      p,
      refl,
      IsIn-select _ p plans chosen,
      sym (all-same _ _ plans (λ q. curry q.is_active (eq_option q.stripe_price_id (some t)) _))
          ∙ all-active _ plans (
              first-selected (has_price t) (by_price plans) p h
                (ascending-order (select (λ q. q.is_active) plans))),
      rw (selected-IsIn (λ q. q.is_active) p plans chosen, matches) refl,
    )

-- For a text that is not empty, _find_matching_plan, on a session whose calls succeed, returns the
-- key of an active plan with that Stripe price, none of which is cheaper, and nothing only where
-- no active plan has the price.
pub find_matching_plan-Cheapest :
    (t : Text) (d : Db)
    → (t == 0) ≡ false
    → (found : Option ℕ) × (find_matching_plan t (fresh d) ≡ (ok found, fresh d))
      × Cheapest t d.plans found
unfolding find_matching_plan get_all_active_plans ◌>>=◌
find_matching_plan-Cheapest t d given = (
  plan_key (head_option (select (has_price t) (by_price d.plans))),
  rw given refl,
  Cheapest-order t d.plans _ refl,
)
