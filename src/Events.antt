-- ===== src/Events.antt =====
-- Which posts are about the same event, app/event_fusion.py, and which about the same moment of it,
-- app/event_timeline.py; how a group of posts belongs to the earlier ones, app/editorial_order.py.
pub mod Sets
pub mod Match
pub mod Matched
pub mod Clues
pub mod Related
pub mod Best
pub mod Segments
pub mod Segmented
mod Tests
