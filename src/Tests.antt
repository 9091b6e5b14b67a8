-- ===== src/Tests.antt =====
-- Concrete data, and the theorems of the other modules applied to it.
pub mod Data
pub mod Invoicing
pub mod Ledger
pub mod Late
pub mod Payout
pub mod Watcher
pub mod Api
pub mod Service
pub mod Credits
pub mod Sent
pub mod Paid
pub mod Tasks
pub mod System
pub mod Wallet
pub mod Credited
pub mod Migrations
