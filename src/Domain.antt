-- ===== src/Domain.antt =====
-- The domain layer: crates/domain.
pub mod Upload
pub mod Lifecycle
pub mod Session
pub mod Codes
pub mod Email
pub mod Metadata
pub mod Hrefs
pub mod Publication
mod Tests
