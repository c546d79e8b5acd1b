-- ===== src/Enclave/Error.antt =====
-- enclave/src/error.rs: the errors of the enclave. A message that is formatted is its fixed text
-- and the value that it shows.
use a.Prelude.{String}
use a.Enclave.State.Status.{ChannelStatus}

pub data EnclaveError : Type 0 where
  insufficient_balance client_not_found provider_not_found provider_auth_failed : EnclaveError
  unsupported_provider_auth_mode invalid_provider_auth_config mtls_not_enabled : EnclaveError
  invalid_scheme payment_details_required invalid_payment_details : EnclaveError
  verify_window_sec_required invalid_verify_window_sec invalid_client_signature : EnclaveError
  client_auth_expired invalid_client_auth_window payment_expired payment_id_reused : EnclaveError
  reservation_not_found reservation_expired settlement_not_found : EnclaveError
  invalid_reservation_status : String → EnclaveError
  vault_not_active vault_paused vault_migrating vault_retired vault_status_unavailable :
      EnclaveError
  deposit_sync_in_progress request_hash_mismatch payment_details_hash_mismatch : EnclaveError
  provider_id_mismatch provider_already_registered channel_not_found : EnclaveError
  invalid_channel_status : String → ChannelStatus → EnclaveError
  channel_request_expired channel_request_id_reused invalid_adaptor_signature : EnclaveError
  receipt_watchtower_unavailable invalid_provider_participant : EnclaveError
  provider_participant_required provider_participant_attestation_required : EnclaveError
  provider_participant_mismatch : EnclaveError
  invalid_provider_participant_attestation : String → EnclaveError
  pay_to_mismatch asset_mint_mismatch network_mismatch origin_not_allowed : EnclaveError
  admin_privacy_bypass_disabled : EnclaveError
  internal : String → EnclaveError
