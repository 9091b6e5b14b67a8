-- ===== src/Payout.antt =====
-- services/payout: withdrawals, from the selection of coins to the broadcast transaction, and the
-- background tasks that run them.
pub mod Selector
pub mod Signing
pub mod Processor
pub mod Service
