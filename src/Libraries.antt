-- ===== src/Libraries.antt =====
-- Members and settings of a library, and invitations: crates/application/src/libraries.
pub mod Members
pub mod Invitations
pub mod Laws
pub mod Sending
pub mod Service
mod Tests
