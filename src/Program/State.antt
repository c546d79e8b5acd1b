-- ===== src/Program/State.antt =====
-- programs/a402_vault/src/state and constants.rs: the accounts of one vault. An account at a derived
-- address is found under the seeds that are particular to it, one after another.
use a.Prelude.{ℕ, Bool}
use a.Prelude.Int.{ℤ, pos}
use a.Prelude.Equality.{Bytes, Pubkey}
use a.Prelude.Map.{Map}

abbrev pub max_settlements_per_tx : ℕ
max_settlements_per_tx = 20

abbrev pub max_atomic_audits_per_tx : ℕ
max_atomic_audits_per_tx = 5

-- 24 hours.
abbrev pub dispute_window_sec : ℤ
dispute_window_sec = pos 86400

abbrev pub vault_status_active : ℕ
vault_status_active = 0

abbrev pub vault_status_paused : ℕ
vault_status_paused = 1

abbrev pub vault_status_migrating : ℕ
vault_status_migrating = 2

abbrev pub vault_status_retired : ℕ
vault_status_retired = 3

pub record VaultConfig : Type 0 where
  pub bump : ℕ
  pub vault_id : ℕ
  pub governance : Pubkey
  pub status : ℕ
  pub vault_signer_pubkey : Pubkey
  pub usdc_mint : Pubkey
  pub vault_token_account : Pubkey
  pub auditor_master_pubkey : Bytes
  pub auditor_epoch : ℕ
  pub attestation_policy_hash : Bytes
  pub successor_vault : Pubkey
  pub exit_deadline : ℤ
  pub lifetime_deposited : ℕ
  pub lifetime_withdrawn : ℕ
  pub lifetime_settled : ℕ

pub record ForceSettleRequest : Type 0 where
  pub bump : ℕ
  pub vault : Pubkey
  pub participant : Pubkey
  pub participant_kind : ℕ
  pub recipient_ata : Pubkey
  pub free_balance_due : ℕ
  pub locked_balance_due : ℕ
  pub max_lock_expires_at : ℤ
  pub receipt_nonce : ℕ
  pub receipt_signature : Bytes
  pub initiated_at : ℤ
  pub dispute_deadline : ℤ
  pub is_resolved : Bool

pub record AscCloseClaim : Type 0 where
  pub bump : ℕ
  pub vault : Pubkey
  pub channel_id_hash : Bytes
  pub request_id_hash : Bytes
  pub request_hash : Bytes
  pub provider_pubkey : Bytes
  pub full_sig_r : Bytes
  pub full_sig_s : Bytes
  pub amount : ℕ
  pub voucher_issued_at : ℤ
  pub claimed_at : ℤ

pub record UsedWithdrawNonce : Type 0 where
  pub bump : ℕ
  pub vault : Pubkey
  pub client : Pubkey
  pub withdraw_nonce : ℕ

pub record SettlementEntry : Type 0 where
  pub provider_token_account : Pubkey
  pub amount : ℕ

pub record AuditRecordData : Type 0 where
  pub encrypted_sender : Bytes
  pub encrypted_amount : Bytes
  pub provider : Pubkey
  pub timestamp : ℤ

-- The accounts of the vault at `vault_key`, but for the token accounts.
pub record Accounts : Type 0 where
  pub vault_key : Pubkey
  pub vault_config : VaultConfig
  pub used_withdraw_nonces : Map Bytes UsedWithdrawNonce
  pub force_settle_requests : Map Bytes ForceSettleRequest
  pub asc_close_claims : Map Bytes AscCloseClaim
