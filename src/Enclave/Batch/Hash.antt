-- ===== src/Enclave/Batch/Hash.antt =====
-- enclave/src/batch.rs: the hash of a chunk, and what the program hashes of it.
use a.Prelude.{ℕ, ◌≡◌, refl, ap, List, [], ◌∷◌, ◌++◌}
use a.Prelude.Equality.{Bytes}
use a.Prelude.Codec.{as_bytes, le_bytes, i64_bits}
use a.Program.State.{SettlementEntry, AuditRecordData}
use a.Program.Runtime.{Platform}
use a.Program.Batch.{settlements_bytes, records_bytes, compute_batch_chunk_hash as program_hash}
use a.Enclave.Batch.{BatchSettlementEntry, BatchAuditEntry}

-- The two loops that feed the hasher.
unfoldable pub transfer_bytes : List BatchSettlementEntry → Bytes
transfer_bytes [] = []
transfer_bytes (s ∷ settlements) =
    s.provider_token_account ++ (le_bytes 8 s.amount ++ transfer_bytes settlements)

unfoldable pub audit_bytes : List BatchAuditEntry → Bytes
audit_bytes [] = []
audit_bytes (e ∷ audits) =
    e.encrypted_sender
    ++ (e.encrypted_amount
        ++ (e.provider ++ (le_bytes 8 (i64_bits e.timestamp) ++ audit_bytes audits)))

unfoldable pub compute_batch_chunk_hash :
    (Bytes → Bytes) → ℕ → List BatchSettlementEntry → List BatchAuditEntry → Bytes
unfolding transfer_bytes audit_bytes
compute_batch_chunk_hash sha256 batch_id settlements audits = sha256 (
    as_bytes "a402-batch-chunk-v1"
    ++ (le_bytes 8 batch_id ++ (transfer_bytes settlements ++ audit_bytes audits)))

-- What `submit_atomic_chunk` puts into the two instructions.
unfoldable pub settlement_entries : List BatchSettlementEntry → List SettlementEntry
settlement_entries [] = []
settlement_entries (s ∷ settlements) =
    record { provider_token_account = s.provider_token_account; amount = s.amount }
    ∷ settlement_entries settlements

unfoldable pub audit_records : List BatchAuditEntry → List AuditRecordData
audit_records [] = []
audit_records (e ∷ audits) =
    record {
      encrypted_sender = e.encrypted_sender;
      encrypted_amount = e.encrypted_amount;
      provider = e.provider;
      timestamp = e.timestamp;
    }
    ∷ audit_records audits

transfer_bytes-settlements_bytes :
    (s : List BatchSettlementEntry) → settlements_bytes (settlement_entries s) ≡ transfer_bytes s
unfolding settlements_bytes settlement_entries transfer_bytes
transfer_bytes-settlements_bytes [] = refl
transfer_bytes-settlements_bytes (e ∷ s) =
    ap (λ rest. e.provider_token_account ++ (le_bytes 8 e.amount ++ rest))
      (transfer_bytes-settlements_bytes s)

audit_bytes-records_bytes :
    (l : List BatchAuditEntry) → records_bytes (audit_records l) ≡ audit_bytes l
unfolding records_bytes audit_records audit_bytes
audit_bytes-records_bytes [] = refl
audit_bytes-records_bytes (e ∷ l) =
    ap
      (λ rest.
        e.encrypted_sender
        ++ (e.encrypted_amount ++ (e.provider ++ (le_bytes 8 (i64_bits e.timestamp) ++ rest))))
      (audit_bytes-records_bytes l)

-- The enclave and the program compute the same hash of a chunk.
pub compute_batch_chunk_hash_agrees :
    (w : Platform) (batch_id : ℕ) (settlements : List BatchSettlementEntry)
    (audits : List BatchAuditEntry)
    → program_hash w batch_id (settlement_entries settlements) (audit_records audits)
      ≡ compute_batch_chunk_hash w.sha256 batch_id settlements audits
unfolding compute_batch_chunk_hash program_hash
compute_batch_chunk_hash_agrees w batch_id settlements audits =
    ap (λ rest. w.sha256 (as_bytes "a402-batch-chunk-v1" ++ (le_bytes 8 batch_id ++ rest))) joined
  where
    joined :
        settlements_bytes (settlement_entries settlements) ++ records_bytes (audit_records audits)
        ≡ transfer_bytes settlements ++ audit_bytes audits
    joined =
        rw (transfer_bytes-settlements_bytes settlements, audit_bytes-records_bytes audits) refl
