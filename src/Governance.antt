-- ===== src/Governance.antt =====
-- src/services/governance: votes on slashing, multi-signature proposals and disputes.
pub mod Slashing
pub mod Multisig
pub mod Disputes
