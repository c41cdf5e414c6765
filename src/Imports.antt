-- ===== src/Imports.antt =====
-- The background work: imports of uploaded publications, and the worker that runs the jobs.
pub mod Retry
pub mod Process
pub mod Worker
mod Tests
