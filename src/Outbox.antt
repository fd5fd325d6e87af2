-- ===== src/Outbox.antt =====
-- The transactional outbox: src/db/outbox/repository.ts and the rules of src/db/outbox/types.ts.
pub mod Table
pub mod Changes
pub mod Claims
pub mod Events
pub mod Quarantine
pub mod Consistency
pub mod Runs
pub mod Lifecycles
pub mod Histories
pub mod Failures
pub mod Attempts
pub mod Leases
pub mod Shards
pub mod Selections
pub mod Moves
pub mod Publisher
pub mod Rules
mod Agreement
mod Publications
mod Groups
mod PublisherTests
mod Tests
