-- ===== src/Credit/RoundTrip.antt =====
-- `add_credits` and `use_credits`, one after the other.
use fastapi_auth_service.Prelude.{
  ℕ, ◌≡◌, refl, ap, ◌∙◌, Bool, true, false, Option, List, [], ◌∷◌, ◌==◌, select, update_where, map,
  arith,
}
use fastapi_auth_service.Prelude.Int.{ℤ, pos, ◌+ℤ◌, ltb_ℤ, leb_ℤ, int_laws}
use fastapi_auth_service.Db.Schema.{
  Text, DateTime, Db, UserCredit, TransactionType, Description, constraints,
}
use fastapi_auth_service.Db.Session.{after, ◌>>=◌, try_except}
use fastapi_auth_service.Credit.Account.{change_balance, take_balance, add_credits, use_credits}
use fastapi_auth_service.Db.Tables.{add_transaction, set_credit}
use fastapi_auth_service.Credit.Answers.{constraints-post}
use fastapi_auth_service.Credit.Spending.{add_entry, use_credits-unless, add_credits-post}

select-update :
    (u : ℕ) (f : UserCredit → UserCredit) (cs : List UserCredit)
    → ((c : UserCredit) → (f c).user_id ≡ c.user_id)
    → select (λ c. c.user_id == u) (update_where (λ c. c.user_id == u) f cs)
      ≡ map f (select (λ c. c.user_id == u) cs)
select-update u f [] h = refl
select-update u f (c ∷ cs) h = grind (arith, select-update u f cs h, h c)

select-added :
    (u : ℕ) (f : UserCredit → UserCredit) (cs : List UserCredit) (c : UserCredit)
    → ((r : UserCredit) → (f r).user_id ≡ r.user_id)
    → select (λ r. r.user_id == u) cs ≡ c ∷ []
    → select (λ r. r.user_id == u) (update_where (λ r. r.user_id == u) f cs) ≡ f c ∷ []
select-added u f cs c h only = select-update u f cs h ∙ ap (map f) only

enough : (b x : ℤ) → leb_ℤ (pos 0) b ≡ true → ltb_ℤ (b +ℤ x) x ≡ false
enough b x h = grind int_laws

-- The user's balances.
abbrev pub balances : ℕ → Db → List ℤ
balances u d = map (λ c. c.balance) (select (λ c. c.user_id == u) d.credits)

module _ (test : Text → Bool) (before now : DateTime) (u : ℕ) (amount : ℤ)
    (reference_id used_for : Option Text) (description note : Option Description)
    (type : TransactionType) (plan_id subscription_id : Option ℕ) (money price : Option ℤ) where
  -- For a user with one credit row, whose balance is not negative, using an amount of credits
  -- right after the same amount was added gives the balance that was there before, where the
  -- constraints are met and the calls of the database succeed.
  pub use_credits-add_credits :
      (d : Db) (c : UserCredit)
      → select (λ r. r.user_id == u) d.credits ≡ c ∷ []
      → constraints d ≡ true
      → leb_ℤ (pos 0) c.balance ≡ true
      → balances u (
          after (use_credits test now u amount used_for note price) (
            after
              (add_credits test before u amount reference_id description type plan_id
                subscription_id money)
              d))
        ≡ c.balance ∷ []
  unfolding use_credits try_except ◌>>=◌ add_credits
  use_credits-add_credits d c only valid solvent =
      let richer =
        add_transaction
          (add_entry test before u amount reference_id description type plan_id subscription_id
            money d.next_id c)
          (set_credit u (change_balance before amount) d) in
      let paid = change_balance before amount c in
      rw
        (
          add_credits-post test before u amount reference_id description type plan_id
              subscription_id money d c only valid,
          use_credits-unless test now u amount used_for note price richer paid
              (select-added u (change_balance before amount) d.credits c (λ r. refl) only)
              (constraints-post _ u (change_balance before amount) d (λ r. refl) ∙ valid),
          enough c.balance amount solvent,
          select-added u (take_balance now amount) richer.credits paid (λ r. refl)
              (select-added u (change_balance before amount) d.credits c (λ r. refl) only),
        )
        (ap (λ b. b ∷ []) (omega int_laws))
