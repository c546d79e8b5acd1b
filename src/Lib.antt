-- ===== src/Lib.antt =====
-- A402: payments for services through an enclave that keeps the balances and an on-chain vault that
-- keeps the money. A client deposits into the vault program (programs/a402_vault); the enclave
-- (enclave) credits the deposit and moves it between the client, an Active Service Channel, pending
-- withdrawals and the credits of providers; batches of credits are settled by the vault program,
-- and a participant that the enclave fails can settle by force with a receipt that it has signed.
--
-- In a channel a client pays a provider for a result by an adaptor signature. The provider pre-signs
-- the payment for a point T = t·G and encrypts the result under t; the secret t completes the
-- signature and opens the result, whether it is revealed to the enclave or recovered from the
-- signature that the provider publishes on chain.
--
-- Prelude: the shared part. Prelude.Outcome is Rust's `Result` with the panic as a third outcome and
--   the actions on a state; Prelude.Fallible and Prelude.Slices are `?` on `Result` and `Option` and
--   the ranges of slices; Prelude.Map is a `DashMap` as an association list; Prelude.Codec is
--   `to_le_bytes` and `from_le_bytes`; Prelude.Int is `i64`; Prelude.Equality is `==`;
--   Prelude.Sort is the order of byte arrays and a stable sort; Prelude.Join is a layout of parts.
-- Program: programs/a402_vault/src. Program.State is state and constants.rs, Program.AscClaim is
--   asc_claim.rs, Program.Receipt and Program.Ed25519 are ed25519_utils.rs, Program.Batch is
--   batch_hash.rs and the pairing in instructions/settle_vault.rs and record_audit.rs,
--   Program.Settle is the rest of the two, Program.Lifecycle, Program.Funds, Program.ForceSettle and
--   Program.CloseClaim are the other files of instructions. Program.Runtime is what they take from
--   the Solana runtime and the token program.
-- Enclave: enclave/src. Enclave.State, Enclave.Balance, Enclave.Payment, Enclave.Confirm and
--   Enclave.Locks are the records, the balance operations, the direct payments, the confirmation of
--   batches and the lock times of state.rs, Enclave.Messages its messages, Enclave.AdaptorSig is
--   adaptor_sig.rs over the curve of Enclave.Crypto, Enclave.Cipher is the stream cipher of
--   asc_manager.rs, and Enclave.Asc the channel operations of asc_manager.rs. Enclave.Backing
--   relates the three: what the balances owe and hold.
-- Enclave.Batch: enclave/src/batch.rs. Batch.Decide is when a batch is due; Batch.Prepare,
--   Batch.Select, Batch.RoundRobin and Batch.Entries choose its settlements and encrypt their
--   audits; Batch.Chunks cuts and filters them; Batch.Aggregate, Batch.Hash and Batch.Submit make the
--   two instructions of a chunk, which Program.Batch reads; Batch.Fire sends the chunks and logs
--   them. Enclave.Audit is audit.rs.
-- Enclave.Wal is the entries of wal.rs and their replay, Enclave.BtcLedger is btc_ledger.rs.
-- Watchtower: watchtower/src. Watchtower.Receipts is receipt_store.rs, Watchtower.Challenge is
--   challenger.rs; it reads what Program.ForceSettle stores and writes what it takes.
--
-- How the code is read. A handler of the program is a function into `Result`: a transaction that
-- fails changes nothing. An operation of the enclave is an action, which returns a result and the
-- state that it leaves, also where it fails half way; `at_channel` and `at_balance` stand for
-- `get_mut(..).ok_or(..)?`. Numbers are natural numbers with the range of their type tested where
-- Rust tests it: `+` and `-` panic out of range, since the workspace builds with overflow checks,
-- `checked_add` gives none, and `saturating_sub` stops at zero. The clock, fresh identifiers and
-- bumps are arguments. Keys and hashes are lists of bytes. In the program an account at a derived
-- address stands under the seeds that are particular to it; an account to create is looked up before
-- the other constraints of the instruction are tested.
--
-- Bounds. The loops of the program over instructions and indices run on the number of rounds that
-- the code has, 32 and 256. The selection of a batch has rounds for one more than it may select,
-- which is enough, since a round that selects nothing is the last. The cipher cuts a text into
-- chunks of 32 bytes on as much fuel as the text has bytes, which is enough, since every round takes
-- at least one.
--
-- What is assumed. `CryptoLaws`: points are added in any order, sums and products of scalars act on
-- multiples of the base point (on no other point), encodings of points decompress, and a scalar has
-- one canonical encoding. `TokenLaws`: a transfer between two accounts takes the amount
-- from one and gives it to the other. A digest of SHA-256 has 32 bytes.
-- `BorshLaws`: the program's decoders read what the client's encoders write. A call of
-- `Backing.Run` is allowed where identifiers and nonces are fresh, withdrawals are of more than
-- nothing, the providers of channels stay registered, and supply and counters have room in a `u64`.
--
-- What is not modelled. The handlers and their HTTP replies, the encryption and storage of the log and
-- the snapshots, the detectors of deposits, the submission of batches to other chains, the mirrors of
-- receipts and the recovery of channel claims in batch.rs, attestation, relays, Raft, the
-- HTTP interface and the file of the watchtower, the entry of the log that registers a provider, and
-- the shared libraries for other chains. Operations run one after another:
-- interleavings inside an operation are left out.
pub mod Prelude
pub mod Program
pub mod Enclave
pub mod Watchtower
