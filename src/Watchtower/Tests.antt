-- ===== src/Watchtower/Tests.antt =====
-- Receipts of one participant.
pub mod Stored
