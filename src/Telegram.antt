-- ===== src/Telegram.antt =====
-- The Telegram client, app/telegram.py, and the receipts of app/message_delivery.py.
pub mod Cut
pub mod Chunks
pub mod Split
pub mod Receipts
pub mod Send
pub mod Api
pub mod Tries
pub mod Noted
pub mod Resume
pub mod Retry
pub mod Posts
pub mod Lost
mod Tests
