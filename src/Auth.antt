-- ===== src/Auth.antt =====
-- modules/auth: accounts, emailed codes and refresh tokens.
pub mod Types
pub mod Sessions
pub mod Replay
pub mod Logout
pub mod Codes
pub mod Accounts
pub mod Owners
pub mod Live
pub mod Renewal
pub mod Entry
pub mod Upkeep
pub mod History
pub mod Redeem
pub mod Flows
pub mod Guessing
pub mod SignIn
pub mod Typed
mod Tests
