-- ===== src/Billing.antt =====
-- Credits, points and deposits: src/server/billing/.
pub mod Ledger
pub mod Service
pub mod Bounty
pub mod Treasury
mod Tests
