-- ===== src/Accounts/Requests/Invariant.antt =====
-- A database invariant over sequences of account requests.
use fastapi_auth_service.Prelude.{Bool, false, refl, List, [], ◌∷◌}
use fastapi_auth_service.Db.Schema.{Db}
use fastapi_auth_service.Db.Ensures.{Committed}
use fastapi_auth_service.Requests.Invariant.{committed}
use fastapi_auth_service.Accounts.Requests.{
  run_account, account_session, AccountIncoming, serve_account, serve_accounts,
}
use fastapi_auth_service.Accounts.Requests.Rules.{AccountWrites, IsDocumented}
use fastapi_auth_service.Accounts.Requests.Writes.Routes.{run_account-Keeps}

abbrev pub AreDocumented : List AccountIncoming → Type 0
AreDocumented [] = Unit
AreDocumented (r ∷ rs) = IsDocumented r.context × AreDocumented rs

module _ (I : Db → Type 0) ⦃w : AccountWrites I⦄ where
  pub serve_account-Committed :
      (v : Bool) (r : AccountIncoming) (d : Db)
      → IsDocumented r.context
      → Committed I v d
      → Committed I v (serve_account r d)
  unfolding serve_account
  serve_account-Committed v r d k h =
      committed I v (run_account r.context r.request (account_session r d))
        ((run_account-Keeps r.context k r.request).at v (account_session r d) h h.0 tt)

  pub serve_accounts-Committed :
      (v : Bool) (rs : List AccountIncoming) (d : Db)
      → AreDocumented rs
      → Committed I v d
      → Committed I v (serve_accounts rs d)
  unfolding serve_accounts
  serve_accounts-Committed v [] d k h = h
  serve_accounts-Committed v (r ∷ rs) d k h =
      serve_accounts-Committed v rs (serve_account r d) k.1 (serve_account-Committed v r d k.0 h)

  pub serve_accounts-Keeps :
      (rs : List AccountIncoming) (d : Db) → AreDocumented rs → I d → I (serve_accounts rs d)
  serve_accounts-Keeps rs d k h = (serve_accounts-Committed false rs d k (h, refl)).0
