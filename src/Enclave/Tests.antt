-- ===== src/Enclave/Tests.antt =====
-- A small curve and a small vault on which the theorems are tried.
pub mod Toy
pub mod Vaults
pub mod Channels
pub mod Backings
pub mod Receipts
pub mod Batches
pub mod Confirms
pub mod Ledgers
pub mod Audits
pub mod Submissions
