-- ===== src/Epub/Ncx.antt =====
-- The reader of the EPUB 2 table of contents: crates/epub/src/ncx.rs, a state machine over XML
-- events. `State` has its data, `Steps` and `Run` the machine.
pub mod State
pub mod Steps
pub mod Run
pub mod Invariant
pub mod Enter
pub mod Preserve
pub mod Moves
pub mod Sort
pub mod Order
pub mod Places
mod Tests
