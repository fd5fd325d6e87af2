-- ===== src/Lifecycle.antt =====
-- The lifecycles that the repository states as transition matrices.
pub mod Outbox
pub mod Settlement
pub mod Keys
pub mod Dispute
pub mod Finality
mod Tests
