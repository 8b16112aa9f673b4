-- ===== src/Ledger.antt =====
-- The source ledger, app/source_ledger.py.
pub mod Rows
pub mod Windows
pub mod Watermark
pub mod Source
mod Tests
