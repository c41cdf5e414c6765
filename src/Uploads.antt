-- ===== src/Uploads.antt =====
-- The receipt of an upload by the application layer.
pub mod Log
pub mod Receive
pub mod Create
mod Tests
