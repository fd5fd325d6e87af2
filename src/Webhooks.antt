-- ===== src/Webhooks.antt =====
-- The admission of incoming webhooks: src/services/webhooks/admission.ts.
pub mod Hex
pub mod Admission
pub mod Once
pub mod Signatures
mod Tests
