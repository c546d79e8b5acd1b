-- ===== src/Program/Settle.antt =====
-- programs/a402_vault/src/instructions: settle_vault and record_audit.
pub mod Conserve
use a.Prelude.{
  ℕ, zero, suc, ◌+◌, Bool, true, false, not, ◌&&◌, ◌||◌, Option, none, some, List, [], ◌∷◌, length,
  ltb, leb, u64_mod, u8_mod, if◌then◌else◌,
}
use a.Prelude.Int.{ℤ, leb_ℤ}
use a.Prelude.Equality.{Bytes, Pubkey, ◌==◌, nat_eq, bytes_eq}
use a.Prelude.Codec.{as_bytes, le_bytes}
use a.Prelude.Map.{Map, insert}
use a.Prelude.Outcome.{Result, ok, err, panic, checked_add}
use a.Prelude.Fallible.{◌>>=◌, ◌>>◌, require, ok_or}
use a.Program.Error.{
  VaultError, vault_inactive, exit_deadline_exceeded, invalid_vault_signer, invalid_amount,
  too_many_settlements, audit_record_index_out_of_order, arithmetic_overflow, constraint_violated,
  token_error,
}
use a.Program.State.{
  VaultConfig, SettlementEntry, AuditRecordData, Accounts, max_settlements_per_tx,
  max_atomic_audits_per_tx, vault_status_active, vault_status_migrating,
}
use a.Program.Runtime.{InstructionsSysvar, TokenProgram, Platform}
use a.Program.Lifecycle.{when_migrating}
use a.Program.Funds.{init_account}
use a.Program.Batch.{verify_record_audit_pairing, verify_settle_vault_pairing}

-- What `settle_vault` and `record_audit` ask of the vault and of its signer.
unfoldable pub active_for_signer : Pubkey → VaultConfig → Result VaultError Unit
active_for_signer vault_signer vault = do
  require (vault.vault_signer_pubkey == vault_signer) invalid_vault_signer
  require (vault.status == vault_status_active || vault.status == vault_status_migrating)
      vault_inactive

module _ (p : TokenProgram) where
  open p use {Tokens, transfer}

  -- The loop over the entries and the remaining accounts; `total_settled` is what it has paid.
  unfoldable pub settle_entries :
      Pubkey
      → Pubkey
      → List SettlementEntry
      → List Pubkey
      → ℕ
      → Tokens
      → Result VaultError (ℕ × Tokens)
  settle_entries vault_key vault_token_account [] remaining_accounts total_settled tokens =
      ok (total_settled, tokens)
  settle_entries vault_key vault_token_account (entry ∷ settlements) [] total_settled tokens = panic
  settle_entries vault_key vault_token_account (entry ∷ settlements)
        (provider_account ∷ remaining_accounts) total_settled tokens =
      do
        require (ltb 0 entry.amount) invalid_amount
        require (provider_account == entry.provider_token_account) invalid_amount
        tokens' ←
            ok_or (transfer vault_token_account provider_account vault_key entry.amount tokens)
              token_error
        total_settled' ← ok_or (checked_add u64_mod total_settled entry.amount) arithmetic_overflow
        settle_entries vault_key vault_token_account settlements remaining_accounts total_settled'
            tokens'

  unfoldable pub settle_vault :
      Platform
      → InstructionsSysvar
      → ℤ
      → Pubkey
      → Pubkey
      → ℕ
      → Bytes
      → List SettlementEntry
      → List Pubkey
      → Accounts
      → Tokens
      → Result VaultError (Accounts × Tokens)
  unfolding active_for_signer settle_entries
  settle_vault w sysvar now vault_signer vault_token_account batch_id batch_chunk_hash settlements
        remaining_accounts accounts tokens =
      do
        let vault = accounts.vault_config
        active_for_signer vault_signer vault
        require (vault_token_account == vault.vault_token_account) constraint_violated
        require (leb (length settlements) max_settlements_per_tx) too_many_settlements
        require (not (length settlements == 0)) invalid_amount
        when_migrating vault (leb_ℤ now vault.exit_deadline) exit_deadline_exceeded
        verify_record_audit_pairing w sysvar batch_id batch_chunk_hash accounts.vault_key
            settlements
        require (length remaining_accounts == length settlements) invalid_amount
        (total_settled, tokens') ←
            settle_entries accounts.vault_key vault_token_account settlements remaining_accounts 0
              tokens
        lifetime_settled ←
            ok_or (checked_add u64_mod vault.lifetime_settled total_settled) arithmetic_overflow
        ok (
          record accounts { vault_config = record vault { lifetime_settled = lifetime_settled } },
          tokens',
        )

pub record AuditRecord : Type 0 where
  pub bump : ℕ
  pub vault : Pubkey
  pub batch_id : ℕ
  pub index : ℕ
  pub encrypted_sender : Bytes
  pub encrypted_amount : Bytes
  pub provider : Pubkey
  pub timestamp : ℤ
  pub auditor_epoch : ℕ

module _ (w : Platform) where
  -- `for index in 0..=u8::MAX`, from `index` on with `left` rounds left.
  unfoldable pub resolve_from : Pubkey → ℕ → Pubkey → ℕ → ℕ → Result VaultError (ℕ × ℕ)
  resolve_from vault_key batch_id account_key zero index = err audit_record_index_out_of_order
  resolve_from vault_key batch_id account_key (suc left) index =
      let rest = resolve_from vault_key batch_id account_key left (index + 1) in
      let (expected_pda, bump) =
        w.find_program_address
          (as_bytes "audit" ∷ vault_key ∷ le_bytes 8 batch_id ∷ (index ∷ []) ∷ []) in
      if expected_pda == account_key then ok (index, bump) else rest

  unfoldable pub resolve_audit_index : Pubkey → ℕ → Pubkey → Result VaultError (ℕ × ℕ)
  unfolding resolve_from
  resolve_audit_index vault_key batch_id account_key =
      resolve_from vault_key batch_id account_key 256 0

  -- `if let Some(expected_index) = next_expected_index { require!(..) }`
  unfoldable pub is_expected : Option ℕ → ℕ → Bool
  is_expected none index = true
  is_expected (some expected_index) index = index == expected_index

  -- The loop over the records and the remaining accounts, each of which is created.
  unfoldable pub write_records :
      VaultConfig
      → Pubkey
      → ℕ
      → List AuditRecordData
      → List Pubkey
      → Option ℕ
      → Map Pubkey AuditRecord
      → Result VaultError (Map Pubkey AuditRecord)
  unfolding is_expected
  write_records vault vault_key batch_id [] remaining next_expected_index audits = ok audits
  write_records vault vault_key batch_id (r ∷ records) [] next_expected_index audits = panic
  write_records vault vault_key batch_id (r ∷ records) (audit_account ∷ remaining)
        next_expected_index audits =
      do
        (index, bump) ← resolve_audit_index vault_key batch_id audit_account
        require (is_expected next_expected_index index) audit_record_index_out_of_order
        init_account audit_account audits
        write_records vault vault_key batch_id records remaining (checked_add u8_mod index 1) (
            insert audit_account
              (record {
                bump = bump;
                vault = vault_key;
                batch_id = batch_id;
                index = index;
                encrypted_sender = r.encrypted_sender;
                encrypted_amount = r.encrypted_amount;
                provider = r.provider;
                timestamp = r.timestamp;
                auditor_epoch = vault.auditor_epoch;
              })
              audits)

  unfoldable pub record_audit :
      InstructionsSysvar
      → ℤ
      → Pubkey
      → ℕ
      → Bytes
      → List AuditRecordData
      → List Pubkey
      → Accounts
      → Map Pubkey AuditRecord
      → Result VaultError (Map Pubkey AuditRecord)
  unfolding active_for_signer write_records
  record_audit sysvar now vault_signer batch_id batch_chunk_hash records remaining accounts audits =
      do
        let vault = accounts.vault_config
        active_for_signer vault_signer vault
        require (not (length records == 0) && leb (length records) max_atomic_audits_per_tx)
            invalid_amount
        when_migrating vault (leb_ℤ now vault.exit_deadline) exit_deadline_exceeded
        verify_settle_vault_pairing w sysvar batch_id batch_chunk_hash accounts.vault_key records
        require (length remaining == length records) invalid_amount
        write_records vault accounts.vault_key batch_id records remaining none audits
