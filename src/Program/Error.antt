-- ===== src/Program/Error.antt =====
-- programs/a402_vault/src/error.rs
pub data VaultError : Type 0 where
  vault_inactive vault_paused vault_already_paused vault_retired vault_already_retired : VaultError
  vault_migrating exit_deadline_exceeded exit_deadline_not_reached vault_insolvent : VaultError
  invalid_vault_signer invalid_participant_receipt invalid_receipt_message : VaultError
  stale_receipt_nonce dispute_window_active dispute_window_expired nonce_already_used : VaultError
  withdraw_expired atomic_chunk_hash_mismatch batch_id_mismatch : VaultError
  audit_record_index_out_of_order record_audit_without_settle settle_vault_without_audit :
      VaultError
  invalid_amount arithmetic_overflow invalid_ed25519_instruction already_resolved : VaultError
  invalid_status_transition too_many_settlements invalid_asc_close_claim : VaultError
  invalid_asc_claim_voucher : VaultError
  -- What the framework reports: an account that fails an `#[account(..)]` attribute with no error of
  -- its own, an account to create that is in use, and a failed call of the token program.
  constraint_violated account_in_use token_error : VaultError
