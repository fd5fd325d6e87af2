-- ===== src/Auth.antt =====
-- The validation of API keys: src/auth/concurrency.ts over src/lib/singleflight.ts.
pub mod SingleFlight
pub mod Guard
mod Fingerprints
mod Runs
mod Bursts
mod Sizes
mod Decisions
mod Tests
