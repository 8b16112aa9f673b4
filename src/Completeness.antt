-- ===== src/Completeness.antt =====
-- Per-source completeness: app/completeness_engine.py with its proof core,
-- rust/editorial-core/src/lib.rs.
pub mod Core
pub mod Evidence
pub mod Rows
pub mod Attempts
pub mod Finish
pub mod Verdict
pub mod Cursors
pub mod Steps
pub mod Final
pub mod History
pub mod Forward
pub mod Legacy
mod Tests
