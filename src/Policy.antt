-- ===== src/Policy.antt =====
-- The policy engine: src/services/policy over src/types/rbac.ts. Rules decide who may do what, and a
-- cache with a time to live stands before the store of the rules. The service's audit calls are left
-- out; what else it does is the store's operations and the evaluator's.
pub mod Evaluator
pub mod Store
pub mod Decisions
pub mod Cache
pub mod Coherence
pub mod Refinement
mod Tests
