-- ===== src/Moderation.antt =====
-- modules/admin: who reviews a department, and the bans.
pub mod Reviewers
pub mod Scope
pub mod Accounts
pub mod Standing
pub mod Tests
