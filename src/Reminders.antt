-- ===== src/Reminders.antt =====
-- The reminders of drafts, app/reminder_queue.py.
pub mod Store
pub mod Settled
pub mod Quiet
mod Tests
