-- ===== src/Governance.antt =====
-- Human approval: src/core/governance/ProposalManager.ts.
pub mod Proposals
mod Tests
