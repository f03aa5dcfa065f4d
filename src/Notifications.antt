-- ===== src/Notifications.antt =====
-- modules/notifications: what is stored for whom.
pub mod Delivery
pub mod Reviewing
pub mod Tests
