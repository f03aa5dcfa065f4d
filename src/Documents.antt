-- ===== src/Documents.antt =====
-- modules/documents: who may see an upload.
pub mod Audience
pub mod Feed
pub mod Resolve
pub mod Signature
pub mod Content
mod Tests
