-- ===== src/StateTransition.antt =====
-- The class `TransitionMatrix` of src/lib/stateTransition.ts, generic in the type of the states.
-- `new` is `none` where the constructor throws. The composite key `from|→|to` is the pair of both.
pub mod Matrix
pub mod Laws
pub mod Terminal
pub mod Reach
mod Tests
