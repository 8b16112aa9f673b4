-- ===== src/Outcome.antt =====
-- The outcome of a production run, app/production_outcome.py.
pub mod Counters
pub mod Classify
pub mod Builder
pub mod Sound
mod Tests
