-- ===== src/RateLimit.antt =====
-- common/rate-limit: the upload budget and the request counter that replicas share in Redis.
pub mod Redis
pub mod Quota
pub mod Scripts
pub mod Agreement
pub mod Ceiling
pub mod Pruning
pub mod Store
mod Tests
pub mod Throttle
pub mod Counter
pub mod Window
