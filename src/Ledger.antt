-- ===== src/Ledger.antt =====
-- services/ledger: crediting confirmed deposits to merchants.
pub mod Fee
pub mod Accounting
pub mod Queue
pub mod Processor
pub mod Service
