-- ===== src/Text.antt =====
-- Rust's `str` and `String`, as the list of their characters' code points.
pub mod Chars
pub mod Split
pub mod Words
pub mod Utf8
pub mod Number
