-- ===== src/Enclave.antt =====
-- The enclave (the Vault `U`): its state, the adaptor signatures, the channel manager.
pub mod Crypto
pub mod AdaptorSig
pub mod State
pub mod Error
pub mod Access
pub mod Audit
pub mod Confirm
pub mod BtcLedger
pub mod Locks
pub mod Batch
pub mod Balance
pub mod Cipher
pub mod Payment
pub mod Asc
pub mod Backing
pub mod Wal
pub mod Messages
pub mod Tests
