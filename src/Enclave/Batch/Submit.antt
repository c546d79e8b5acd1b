-- ===== src/Enclave/Batch/Submit.antt =====
-- enclave/src/batch.rs: `submit_atomic_chunk`, the transaction of `settle_vault` and `record_audit` for
-- one chunk. The Anchor client's encoders of the two lists are arguments.
pub mod Paired
use a.Prelude.{ℕ, zero, suc, ◌+◌, ◌%◌, String, List, [], ◌∷◌, ◌++◌, u8_mod}
use a.Prelude.Equality.{Bytes, Pubkey}
use a.Prelude.Codec.{as_bytes, le_bytes}
use a.Program.State.{SettlementEntry, AuditRecordData}
use a.Program.Runtime.{Instruction, Platform}
use a.Program.Batch.{instruction_discriminator}
use a.Enclave.Batch.{BatchSettlementEntry, PreparedSettlement}
use a.Enclave.Batch.Chunks.{BatchChunk, audits}
use a.Enclave.Batch.Hash.{settlement_entries, audit_records}

-- The accounts and addresses that the enclave is configured with.
pub record SolanaAccounts : Type 0 where
  pub vault_signer_pubkey : Pubkey
  pub vault_config : Pubkey
  pub vault_token_account : Pubkey
  pub instructions_sysvar : Pubkey
  pub token_program : Pubkey
  pub system_program : Pubkey

unfoldable pub settlement_accounts : List BatchSettlementEntry → List Pubkey
settlement_accounts [] = []
settlement_accounts (s ∷ settlements) = s.provider_token_account ∷ settlement_accounts settlements

module _ (w : Platform) (encode_settlements : List SettlementEntry → Bytes)
    (encode_records : List AuditRecordData → Bytes) (a : SolanaAccounts) where
  -- `chunk.start_index + offset as u8` wraps no more than the index of an entry does.
  unfoldable pub audit_accounts : ℕ → ℕ → List PreparedSettlement → List Pubkey
  audit_accounts batch_id index [] = []
  audit_accounts batch_id index (e ∷ entries) =
      let (audit_pda, bump) =
        w.find_program_address
          (as_bytes "audit" ∷ a.vault_config ∷ le_bytes 8 batch_id ∷ (index ∷ []) ∷ []) in
      audit_pda ∷ audit_accounts batch_id (index + 1) entries

  unfoldable pub settle_instruction : ℕ → Bytes → List BatchSettlementEntry → Instruction
  unfolding settlement_accounts settlement_entries
  settle_instruction batch_id batch_chunk_hash settlements = record {
    program_id = w.program_id;
    accounts =
        (a.vault_signer_pubkey ∷ a.vault_config ∷ a.vault_token_account ∷ a.instructions_sysvar
          ∷ a.token_program ∷ [])
        ++ settlement_accounts settlements;
    ix_data =
        instruction_discriminator w "settle_vault"
        ++ (le_bytes 8 batch_id
            ++ (batch_chunk_hash ++ encode_settlements (settlement_entries settlements)));
  }

  unfoldable pub record_audit_instruction : ℕ → Bytes → BatchChunk → Instruction
  unfolding audit_accounts audit_records audits
  record_audit_instruction batch_id batch_chunk_hash chunk = record {
    program_id = w.program_id;
    accounts =
        (a.vault_signer_pubkey ∷ a.vault_config ∷ a.instructions_sysvar ∷ a.system_program ∷ [])
        ++ audit_accounts batch_id chunk.start_index chunk.entries;
    ix_data =
        instruction_discriminator w "record_audit"
        ++ (le_bytes 8 batch_id
            ++ (batch_chunk_hash ++ encode_records (audit_records (audits chunk.entries))));
  }

  -- The instructions of the transaction.
  unfoldable pub submit_atomic_chunk :
      ℕ → BatchChunk → List BatchSettlementEntry → Bytes → List Instruction
  unfolding settle_instruction record_audit_instruction
  submit_atomic_chunk batch_id chunk aggregated_settlements batch_chunk_hash =
      settle_instruction batch_id batch_chunk_hash aggregated_settlements
      ∷ record_audit_instruction batch_id batch_chunk_hash chunk
      ∷ []
