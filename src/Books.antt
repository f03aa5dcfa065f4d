-- ===== src/Books.antt =====
-- The book donation desk (modules/books): listing, requests and the handover.
pub mod Types
pub mod Requests
pub mod Listing
pub mod Handover
pub mod Moves
pub mod Consistency
pub mod Desk
pub mod Races
mod Tests
