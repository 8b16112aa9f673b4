-- ===== src/State.antt =====
-- The durable state of the bot, app/state.py, with the lifecycle records that app/zero_silent_miss.py
-- adds to it.
pub mod Rows
pub mod Lifecycle
pub mod Store
pub mod Queue
pub mod Calls
pub mod Pending
pub mod Reloaded
pub mod Blocked
pub mod Kept
pub mod Waits
pub mod Fresh
pub mod Replayed
mod Tests
