-- ===== src/Uploads.antt =====
-- modules/documents as it writes: staging, posting, editing and reviewing uploads.
pub mod Types
pub mod Names
pub mod Staging
pub mod Charging
pub mod Budget
pub mod Posting
pub mod Editing
pub mod Owning
pub mod Found
pub mod Browsing
pub mod Feed
pub mod Review
pub mod Pending
pub mod Clearance
pub mod Calm
pub mod Calls
pub mod Publishing
pub mod Authority
pub mod Signing
pub mod Queue
pub mod Tests
