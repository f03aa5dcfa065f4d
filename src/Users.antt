-- ===== src/Users.antt =====
-- modules/users: the yearly promotion and the Telegram handles of a profile.
pub mod Promotion
pub mod Rollover
pub mod Handles
pub mod Selection
mod Tests
