-- ===== src/Watchtower.antt =====
-- The watchtower: the newest receipt of every participant, and the challenges that it submits.
pub mod Receipts
pub mod Challenge
pub mod Tests
