-- ===== src/Epub.antt =====
-- The EPUB reader: crates/epub.
pub mod Error
pub mod Path
pub mod Archive
pub mod Xml
pub mod Links
pub mod Reader
pub mod Container
pub mod Navigation
pub mod Package
pub mod Parser
pub mod Sample
pub mod Eocd
pub mod Load
pub mod Ncx
