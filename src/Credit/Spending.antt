-- ===== src/Credit/Spending.antt =====
-- What `use_credits` and `add_credits` do, exactly, for a user with a credit row, where the calls of
-- the database succeed.
use fastapi_auth_service.Prelude.{
  ℕ, ◌+◌, ◌≡◌, refl, ap, Bool, true, ◌||◌, ◌++◌, Option, none, [], ◌∷◌, ◌==◌, select, map,
  update_where-map, if◌then◌else◌, Bool-cases, inl, inr,
}
use fastapi_auth_service.Prelude.Int.{ℤ, pos, ◌+ℤ◌, ◌-ℤ◌, ltb_ℤ, leb_ℤ}
use fastapi_auth_service.Db.Schema.{
  Text, DateTime, Db, UserCredit, CreditTransaction, TransactionType, Description, constraints,
}
use fastapi_auth_service.Db.Tables.{add_transaction, set_credit}
use fastapi_auth_service.Db.Session.{http, ok, err, fresh, ◌>>=◌}
use fastapi_auth_service.Credit.Account.{
  rollback_and_raise, db_error_handler, create_transaction_response, or_create, get_user_credit,
  change_balance, take_balance, post_and_respond, add_to_credit, add_credits, take_from_credit,
  use_credits,
}
use fastapi_auth_service.Credit.Answers.{constraints-post, or_http_500, told, told-response}

module _ (test : Text → Bool) (now : DateTime) (u : ℕ) (amount : ℤ) (reference_id : Option Text)
    (description : Option Description) (money : Option ℤ) where
  abbrev pub use_entry : ℕ → UserCredit → CreditTransaction
  use_entry id c = record {
    id = id;
    user_id = u;
    user_credit_id = c.id;
    amount = amount;
    transaction_type = TransactionType.credit_used;
    reference_id = reference_id;
    description = description;
    plan_id = none;
    subscription_id = none;
    created_at = now;
  }

  -- The user's credit row with the amount taken, and the transaction at the end of the table.
  abbrev pub spent : UserCredit → Db → Db
  spent c d = record d {
    credits =
        map
          (λ r.
            if r.user_id == u
            then record r { balance = r.balance -ℤ amount; updated_at = now }
            else r)
          d.credits;
    transactions = d.transactions ++ use_entry d.next_id c ∷ [];
    next_id = d.next_id + 1;
  }

  spent-update :
      (c : UserCredit) (d : Db)
      → add_transaction (use_entry d.next_id c) (set_credit u (take_balance now amount) d)
        ≡ spent c d
  spent-update c d =
      rw (update_where-map (λ r. r.user_id == u) (take_balance now amount) d.credits) refl

  pub use_credits-unless :
      (d : Db) (c : UserCredit)
      → select (λ r. r.user_id == u) d.credits ≡ c ∷ []
      → constraints d ≡ true
      → use_credits test now u amount reference_id description money (fresh d) ≡ (
          if ltb_ℤ c.balance amount then (err (http 500), fresh d) else (
            or_http_500 (
                create_transaction_response test
                  (use_entry d.next_id c)
                  (c.balance -ℤ amount)
                  money),
            fresh (
                add_transaction (use_entry d.next_id c) (set_credit u (take_balance now amount) d)),
          ))
  unfolding use_credits take_from_credit get_user_credit or_create db_error_handler
      rollback_and_raise ◌>>=◌ post_and_respond create_transaction_response
  use_credits-unless d c only valid = elim (Bool-cases (ltb_ℤ c.balance amount)) [
    | inl short ↦ rw (only, short) refl
    | inr enough ↦ elim (Bool-cases (leb_ℤ amount (pos 0))) [
      | inl e ↦ rw (only, enough, posted d c, valid, e) refl
      | inr e ↦ rw (only, enough, posted d c, valid, e) refl
    ]
  ]
    where
      posted :
          (d : Db) (c : UserCredit)
          → constraints
              (add_transaction (use_entry d.next_id c) (set_credit u (take_balance now amount) d))
            ≡ constraints d
      posted d c =
          constraints-post (use_entry d.next_id c) u (take_balance now amount) d (λ r. refl)

  -- use_credits for a user with one credit row, where the constraints are met and the calls of the
  -- database succeed: with a balance below the amount, an HTTP 500 and no change; otherwise
  -- exactly the amount leaves the balance and one transaction with the amount is recorded, and the
  -- answer tells the key of that transaction, the amount and the new balance, or is an HTTP 500
  -- for an amount that is not positive.
  pub use_credits-fresh :
      (d : Db) (c : UserCredit)
      → select (λ r. r.user_id == u) d.credits ≡ c ∷ []
      → constraints d ≡ true
      → (told (use_credits test now u amount reference_id description money (fresh d)).0 ≡ (
          if ltb_ℤ c.balance amount || leb_ℤ amount (pos 0)
          then err (http 500)
          else ok (d.next_id, amount, c.balance -ℤ amount)))
        × ((use_credits test now u amount reference_id description money (fresh d)).1
            ≡ fresh (if ltb_ℤ c.balance amount then d else spent c d))
  use_credits-fresh d c only valid = elim (Bool-cases (ltb_ℤ c.balance amount)) [
    | inl short ↦ rw (use_credits-unless d c only valid, short) (refl, refl)
    | inr enough ↦
        rw (use_credits-unless d c only valid, enough)
          (
            told-response test (use_entry d.next_id c) (c.balance -ℤ amount) money,
            ap fresh (spent-update c d),
          )
  ]

module _ (test : Text → Bool) (now : DateTime) (u : ℕ) (amount : ℤ) (reference_id : Option Text)
    (description : Option Description) (type : TransactionType) (plan_id subscription_id : Option ℕ)
    (money : Option ℤ) where
  abbrev pub add_entry : ℕ → UserCredit → CreditTransaction
  add_entry id c = record {
    id = id;
    user_id = u;
    user_credit_id = c.id;
    amount = amount;
    transaction_type = type;
    reference_id = reference_id;
    description = description;
    plan_id = plan_id;
    subscription_id = subscription_id;
    created_at = now;
  }

  -- The user's credit row with the amount added, and the transaction at the end of the table.
  abbrev pub added : UserCredit → Db → Db
  added c d = record d {
    credits =
        map
          (λ r.
            if r.user_id == u
            then record r { balance = r.balance +ℤ amount; updated_at = now }
            else r)
          d.credits;
    transactions = d.transactions ++ add_entry d.next_id c ∷ [];
    next_id = d.next_id + 1;
  }

  added-update :
      (c : UserCredit) (d : Db)
      → add_transaction (add_entry d.next_id c) (set_credit u (change_balance now amount) d)
        ≡ added c d
  added-update c d =
      rw (update_where-map (λ r. r.user_id == u) (change_balance now amount) d.credits) refl

  pub add_credits-post :
      (d : Db) (c : UserCredit)
      → select (λ r. r.user_id == u) d.credits ≡ c ∷ []
      → constraints d ≡ true
      → add_credits test now u amount reference_id description type plan_id subscription_id money
          (fresh d)
        ≡ (
          or_http_500 (
              create_transaction_response test (add_entry d.next_id c) (c.balance +ℤ amount) money),
          fresh (
              add_transaction (add_entry d.next_id c) (set_credit u (change_balance now amount) d)),
        )
  unfolding add_credits add_to_credit get_user_credit or_create db_error_handler rollback_and_raise
      ◌>>=◌ post_and_respond create_transaction_response
  add_credits-post d c only valid = elim (Bool-cases (leb_ℤ amount (pos 0))) [
    | inl e ↦ rw (only, posted d c, valid, e) refl
    | inr e ↦ rw (only, posted d c, valid, e) refl
  ]
    where
      posted :
          (d : Db) (c : UserCredit)
          → constraints
              (add_transaction (add_entry d.next_id c) (set_credit u (change_balance now amount) d))
            ≡ constraints d
      posted d c =
          constraints-post (add_entry d.next_id c) u (change_balance now amount) d (λ r. refl)

  -- add_credits for a user with one credit row, where the constraints are met and the calls of the
  -- database succeed: exactly the amount comes to the balance and one transaction with the amount
  -- is recorded, and the answer tells the key of that transaction, the amount and the new balance,
  -- or is an HTTP 500 for an amount that is not positive.
  pub add_credits-fresh :
      (d : Db) (c : UserCredit)
      → select (λ r. r.user_id == u) d.credits ≡ c ∷ []
      → constraints d ≡ true
      → (told
            (add_credits test now u amount reference_id description type plan_id subscription_id
              money
              (fresh d)).0
          ≡ (if leb_ℤ amount (pos 0)
              then err (http 500)
              else ok (d.next_id, amount, c.balance +ℤ amount)))
        × ((add_credits test now u amount reference_id description type plan_id subscription_id
              money
              (fresh d)).1
            ≡ fresh (added c d))
  add_credits-fresh d c only valid = rw (add_credits-post d c only valid) (
    told-response test (add_entry d.next_id c) (c.balance +ℤ amount) money,
    ap fresh (added-update c d),
  )
