-- ===== src/Telegram.antt =====
-- telegram/: messages and the client that posts them.
pub mod Message
pub mod Client
