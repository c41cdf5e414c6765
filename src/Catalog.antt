-- ===== src/Catalog.antt =====
-- The use cases of the catalog: crates/application/src/catalog.
pub mod Books
mod Tests
