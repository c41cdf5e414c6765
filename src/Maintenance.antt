-- ===== src/Maintenance.antt =====
-- The maintenance of uploads and blobs by the worker: the recovery of receipts, the cleanup of
-- imports, and the collection of blobs.
pub mod Calls
pub mod Recovery
pub mod Garbage
pub mod Cleanup
mod Tests
