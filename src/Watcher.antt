-- ===== src/Watcher.antt =====
-- services/watcher: raw transactions from the node, matched against invoice addresses.
pub mod Decoder
pub mod Address
pub mod Matching
pub mod Service
