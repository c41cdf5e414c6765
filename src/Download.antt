-- ===== src/Download.antt =====
-- The download of original files: crates/http/src/routes/download.rs over
-- crates/application/src/catalog/download_item.rs.
pub mod Range
pub mod Stream
pub mod Disposition
pub mod Grant
pub mod Handler
mod Tests
