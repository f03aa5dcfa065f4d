-- ===== src/Uploads/Calm.antt =====
-- Proofs on the calls of an uploader: staging, posting and editing.
pub mod Files
pub mod Posting
pub mod Edits
pub mod Attaching
pub mod Approving
