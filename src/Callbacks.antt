-- ===== src/Callbacks.antt =====
-- Callback payloads, app/callback_store.py.
pub mod Tokens
pub mod Roundtrip
mod Tests
