-- ===== src/Credit.antt =====
-- app/services/credit: balances, transactions, plans and subscriptions.
pub mod Single
pub mod Answers
pub mod Spending
pub mod RoundTrip
pub mod Solvency
pub mod Renewal
pub mod Account
pub mod Plans
pub mod Purchase
pub mod Verified
pub mod Subscriptions
pub mod Ledger
pub mod Writes
