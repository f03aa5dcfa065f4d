-- ===== src/Telegram.antt =====
-- modules/telegram: the chat that notifications of an account go to.
pub mod Linking
pub mod Once
pub mod Asked
pub mod Tests
