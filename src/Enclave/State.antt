-- ===== src/Enclave/State.antt =====
-- enclave/src/state.rs: what the vault holds in memory. Each `DashMap` is a `Map`, an atomic
-- counter is its value, and keys are compared as the strings or byte arrays that they are.
pub mod Status
use a.Prelude.{ℕ, String, Option, none, List, [], ◌∷◌}
use a.Prelude.Int.{ℤ, pos}
use a.Prelude.Equality.{Bytes, Pubkey}
use a.Prelude.Map.{Map}
use a.Enclave.AdaptorSig.{AdaptorPreSignature}
use Status.{ChannelStatus, ReservationStatus}

abbrev pub ChannelId : Type 0
ChannelId = String

pub record ChannelBalance : Type 0 where
  pub client_free : ℕ
  pub client_locked : ℕ
  pub provider_earned : ℕ

pub record ChannelRequest : Type 0 where
  pub request_id : String
  pub amount : ℕ
  pub request_hash : Bytes
  pub provider_pubkey : Option Bytes
  pub adaptor_point : Option Bytes
  pub provider_pre_sig : Option AdaptorPreSignature
  pub encrypted_result : Option Bytes
  pub result_hash : Option Bytes
  pub created_at : ℤ
  pub expires_at : ℤ

pub record ChannelState : Type 0 where
  pub channel_id : ChannelId
  pub client : Pubkey
  pub provider_id : String
  pub balance : ChannelBalance
  pub open balance use *
  pub status : ChannelStatus
  pub nonce : ℕ
  pub created_at : ℤ
  pub updated_at : ℤ
  pub used_request_ids : List String
  pub active_request : Option ChannelRequest

pub record ClientBalance : Type 0 where
  pub free : ℕ
  pub locked : ℕ
  pub max_lock_expires_at : ℤ
  pub total_deposited : ℕ
  pub total_withdrawn : ℕ

-- `ClientBalance::default`
abbrev pub default_balance : ClientBalance
default_balance = record {
  free = 0;
  locked = 0;
  max_lock_expires_at = pos 0;
  total_deposited = 0;
  total_withdrawn = 0;
}

pub record ProviderRegistration : Type 0 where
  pub provider_id : String
  pub display_name : String
  pub participant_pubkey : Option Pubkey
  pub participant_attestation_policy_hash : Option Bytes
  pub participant_attestation_verified_at_ms : Option ℤ
  pub participant_attestation_mode : Option String
  pub settlement_token_account : Pubkey
  pub network : String
  pub asset_mint : Pubkey
  pub allowed_origins : List String
  pub auth_mode : String
  pub api_key_hash : Option Bytes
  pub mtls_cert_fingerprint : Option Bytes
  pub settlement_address : String
  pub asset_id : String
  pub chain_kind : String

pub record Reservation : Type 0 where
  pub verification_id : String
  pub reservation_id : String
  pub payment_id : String
  pub client : Pubkey
  pub provider_id : String
  pub amount : ℕ
  pub request_hash : Bytes
  pub payment_details_hash : Bytes
  pub status : ReservationStatus
  pub created_at : ℤ
  pub expires_at : ℤ
  pub settlement_id : Option String
  pub settled_at : Option ℤ

pub record ProviderCredit : Type 0 where
  pub provider_id : String
  pub settlement_token_account : Pubkey
  pub credited_amount : ℕ
  pub oldest_credit_at : ℤ
  pub settlement_ids : List String

pub record MultiChainProviderCredit : Type 0 where
  pub provider_id : String
  pub network : String
  pub asset_id : String
  pub settlement_address : String
  pub credited_amount : ℕ
  pub oldest_credit_at : ℤ
  pub settlement_ids : List String

pub record PendingWithdrawal : Type 0 where
  pub client : Pubkey
  pub recipient_ata : Pubkey
  pub amount : ℕ
  pub withdraw_nonce : ℕ
  pub issued_at : ℤ
  pub expires_at : ℤ

pub record SettlementRecord : Type 0 where
  pub settlement_id : String
  pub client : Pubkey
  pub provider : Pubkey
  pub amount : ℕ
  pub timestamp : ℤ

pub record SettlementBatchInfo : Type 0 where
  pub batch_id : ℕ
  pub tx_signature : String

-- The part of `VaultState` that the balance, channel and batch operations read or write.
pub record VaultState : Type 0 where
  pub vault_config : Pubkey
  pub auditor_master_secret : Bytes
  pub auditor_epoch : ℕ
  pub client_balances : Map Pubkey ClientBalance
  pub reservations : Map String Reservation
  pub provider_credits : Map String ProviderCredit
  pub multi_chain_provider_credits : Map String MultiChainProviderCredit
  pub providers : Map String ProviderRegistration
  pub settlement_history : Map String SettlementRecord
  pub settlement_batches : Map String SettlementBatchInfo
  pub pending_withdrawals : Map ℕ PendingWithdrawal
  pub active_channels : Map ChannelId ChannelState
  pub receipt_nonce : ℕ
  pub withdraw_nonce : ℕ
  pub last_batch_at : ℤ
