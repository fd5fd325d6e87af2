-- ===== src/Members.antt =====
-- Members of organisations: src/services/members/service.ts over src/repositories/member.repository.ts.
pub mod Repository
pub mod Audit
pub mod Service
pub mod Rows
pub mod Parts
pub mod Seats
pub mod Requests
pub mod Isolation
pub mod Owners
pub mod RoundTrip
pub mod Races
pub mod Answers
mod Tests
