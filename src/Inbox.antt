-- ===== src/Inbox.antt =====
-- The private review inbox, app/review_inbox.py.
pub mod Store
pub mod Pages
pub mod Synced
pub mod Decided
mod Tests
