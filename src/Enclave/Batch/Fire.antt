-- ===== src/Enclave/Batch/Fire.antt =====
-- enclave/src/batch.rs: `fire_batch_at` for the vault's own chain: the plan of a batch, and the loop that
-- submits its chunks and logs each one. `send` is the RPC call with the transaction, `appends` whether
-- the log takes an entry. The receipts that are mirrored afterwards are left out.
pub mod Plan
pub mod Logged
use a.Prelude.{ℕ, ◌+◌, String, Bool, Option, none, some, List, [], ◌∷◌, ◌++◌}
use a.Prelude.Int.{ℤ}
use a.Prelude.Equality.{Bytes}
use a.Prelude.Outcome.{Result, Action, get, pure, require, or_raise, lift, ◌>>=◌, ◌>>◌}
use a.Program.State.{SettlementEntry, AuditRecordData}
use a.Program.Runtime.{Instruction, Platform}
use a.Enclave.Crypto.{Crypto}
use a.Enclave.State.{VaultState}
use a.Enclave.Wal.{WalEntry, batch_confirmed}
use a.Enclave.Confirm.{apply_batch_confirmation}
use a.Enclave.Batch.{
  BatchBuildMode, BatchError, BatchPrivacyConfig, BatchSettlementEntry, PreparedSettlement,
  chunk_submission_failed, wal_append_failed,
}
use a.Enclave.Batch.Prepare.{Worker}
use a.Enclave.Batch.Entries.{prepare_batch}
use a.Enclave.Batch.Chunks.{BatchChunk, audits, build_batch_chunks, privacy_filter_batch_chunks}
use a.Enclave.Batch.Aggregate.{aggregate_settlements}
use a.Enclave.Batch.Hash.{compute_batch_chunk_hash}
use a.Enclave.Batch.Submit.{SolanaAccounts, submit_atomic_chunk}

-- What the loop writes.
pub record Batching : Type 0 where
  pub vault : VaultState
  pub wal : List WalEntry

abbrev pub Firing : Type 0 → Type 0
Firing A = Action BatchError Batching A

unfoldable pub settlement_ids : List PreparedSettlement → List String
settlement_ids [] = []
settlement_ids (e ∷ entries) = e.settlement_id ∷ settlement_ids entries

-- The chunks that a batch consists of.
unfoldable pub plan_batch :
    (c : Crypto)
    → (Bytes → Bytes → Bytes → Bytes)
    → (ℕ → c.Scalar)
    → BatchPrivacyConfig
    → ℤ
    → BatchBuildMode
    → Worker (List BatchChunk)
plan_batch c hkdf draw batch_privacy now mode = do
  prepared ← prepare_batch c hkdf draw batch_privacy now mode
  chunks ← lift (build_batch_chunks prepared)
  lift (privacy_filter_batch_chunks chunks now mode batch_privacy)

module _ (w : Platform) (encode_settlements : List SettlementEntry → Bytes)
    (encode_records : List AuditRecordData → Bytes) (a : SolanaAccounts)
    (send : List Instruction → Option String) (appends : WalEntry → Bool) where
  abbrev pub append_entry : WalEntry → Firing Unit
  append_entry entry = do
    require (appends entry) wal_append_failed
    b ← get
    (λ s. (Result.ok tt, record s { wal = b.wal ++ entry ∷ [] }))

  -- `apply_submitted_chunk`
  abbrev pub apply_submitted_chunk : BatchChunk → ℤ → ℕ → String → Firing Unit
  apply_submitted_chunk chunk now batch_id tx_signature b = (
    Result.ok tt,
    record b {
      vault =
          record (apply_batch_confirmation (settlement_ids chunk.entries) batch_id tx_signature
            b.vault) { last_batch_at = now };
    },
  )

  -- The body of the loop over the chunks.
  unfoldable pub fire_chunk : ℤ → ℕ → ℕ → BatchChunk → Firing String
  unfolding settlement_ids
  fire_chunk now batch_id chunk_idx chunk = do
    settlements ← lift (aggregate_settlements chunk.entries)
    let hash = compute_batch_chunk_hash w.sha256 batch_id settlements (audits chunk.entries)
    let transaction =
        submit_atomic_chunk w encode_settlements encode_records a batch_id chunk settlements hash
    signature ← or_raise (send transaction) (chunk_submission_failed chunk_idx)
    append_entry (batch_confirmed batch_id signature (settlement_ids chunk.entries))
    apply_submitted_chunk chunk now batch_id signature
    pure signature

  unfoldable pub fire_chunks : ℤ → ℕ → ℕ → List BatchChunk → Firing (List String)
  unfolding fire_chunk
  fire_chunks now batch_id chunk_idx [] = pure []
  fire_chunks now batch_id chunk_idx (chunk ∷ chunks) = do
    signature ← fire_chunk now batch_id chunk_idx chunk
    signatures ← fire_chunks now batch_id (chunk_idx + 1) chunks
    pure (signature ∷ signatures)
