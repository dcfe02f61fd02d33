-- ===== src/Policy.antt =====
-- What an agent may do: src/constitution/, src/delegation/ and src/core/autonomy/.
pub mod Constitution
pub mod Authority
pub mod Agreements
mod Tests
