-- ===== src/Review.antt =====
-- The source-first review queue, app/source_first_queue.py.
pub mod Rounds
pub mod Merge
pub mod Activate
pub mod Queue
pub mod Snapshot
pub mod Shown
pub mod Focus
pub mod Reconcile
pub mod Merged
pub mod Moves
pub mod Calls
pub mod Serve
pub mod Defer
pub mod Covered
pub mod Closed
mod Tests
