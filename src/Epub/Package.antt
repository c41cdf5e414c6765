-- ===== src/Epub/Package.antt =====
-- The reader of an EPUB package document: crates/epub/src/package.rs. Manifest has the items, State
-- the data, Steps what a start tag does, Run the other events and the loop, Sound, Preserve and Events what the
-- loop keeps, Navigate the choice of
-- the table of contents, Fallback the search for readable items, Build the publication.
pub mod Manifest
pub mod State
pub mod Items
pub mod Steps
pub mod Run
pub mod Sound
pub mod Preserve
pub mod Events
pub mod Fallback
pub mod Navigate
pub mod Build
pub mod Spine
pub mod Covers
pub mod Contents
pub mod Laws
mod Tests
