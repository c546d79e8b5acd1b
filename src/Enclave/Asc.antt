-- ===== src/Enclave/Asc.antt =====
-- enclave/src/asc_manager.rs: the life of an Atomic Service Channel. The clock, the fresh
-- identifiers and the curve are arguments; `info!` lines are left out.
pub mod Field
pub mod Request
pub mod Finalize
pub mod Lifecycle
pub mod Consistent
pub mod Rollback
pub mod Atomic
pub mod Onchain
