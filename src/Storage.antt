-- ===== src/Storage.antt =====
-- modules/storage: references to stored objects, and StorageService over the object store.
pub mod Refs
pub mod RoundTrip
pub mod Removal
pub mod Tests
