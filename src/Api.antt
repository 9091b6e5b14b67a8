-- ===== src/Api.antt =====
-- services/api and services/payout/router.py: the HTTP handlers. A handler runs in one database
-- session, which core/database.py commits when the handler returns and rolls back when it raises.
pub mod Paging
pub mod Amount
pub mod Auth
pub mod Admin
pub mod Profile
pub mod Invoices
pub mod Payouts
pub mod Forms
