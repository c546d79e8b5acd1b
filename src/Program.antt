-- ===== src/Program.antt =====
-- programs/a402_vault: the on-chain vault.
pub mod Error
pub mod AscClaim
pub mod Receipt
pub mod State
pub mod Runtime
pub mod Ed25519
pub mod Lifecycle
pub mod Funds
pub mod ForceSettle
pub mod CloseClaim
pub mod Batch
pub mod Settle
pub mod Tests
