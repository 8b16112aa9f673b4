-- ===== src/Media.antt =====
-- The receipts of delivered media, app/media_delivery.py.
pub mod Ledger
pub mod Recent
mod Tests
