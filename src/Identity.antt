-- ===== src/Identity.antt =====
-- Accounts and sessions: crates/application/src/identity.
pub mod Login
pub mod Sessions
pub mod Reset
pub mod Laws
pub mod Admission
mod Tests
