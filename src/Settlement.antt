-- ===== src/Settlement.antt =====
-- Merchant payouts: src/capabilities/fintech/dana (the settlement ledger, the coordinator that pays
-- a store out, and the classifier of the bank's answers).
pub mod Store
pub mod Reversal
pub mod Request
pub mod Double
pub mod Payout
pub mod Coordinator
pub mod Ledger
pub mod Classifier
mod Tests
