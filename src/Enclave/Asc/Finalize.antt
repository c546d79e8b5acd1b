-- ===== src/Enclave/Asc/Finalize.antt =====
-- enclave/src/asc_manager.rs: a delivered request is finalized by the adaptor secret, revealed off
-- chain or recovered from the signature that the provider published on chain.
use a.Prelude.{unwrap_or, ℕ, String, Bool, true, not, ◌&&◌, Option, none, some}
use a.Prelude.Int.{ℤ}
use a.Prelude.Equality.{Bytes, ◌==◌, nat_eq, string_eq, bytes_eq}
use a.Prelude.Map.{lookup}
use a.Prelude.Outcome.{get, pure, require, or_raise, ◌>>=◌, ◌>>◌}
use a.Enclave.Crypto.{Crypto}
use a.Enclave.AdaptorSig.{AdaptorPreSignature, AdaptedSignature, adapt, extract, verify_adapted}
use a.Enclave.Cipher.{decrypt_with_scalar}
use a.Enclave.Error.{channel_not_found, invalid_channel_status, invalid_adaptor_signature, internal}
use a.Enclave.State.{ChannelId, ChannelRequest, ChannelState}
use a.Enclave.State.Status.{open_status, pending_status, is_open, is_pending}
use a.Enclave.Access.{Vault, Channel, at_channel}
use a.Enclave.Asc.Field.{
  sub_locked, add_locked, saturating_sub_locked, add_earned, saturating_sub_earned, set_status,
  set_active_request, next_nonce, previous_nonce, set_updated_at,
}
use a.Enclave.Asc.Request.{build_payment_message, is_some}

pub record FinalizeOutcome : Type 0 where
  pub request_id : String
  pub result_bytes : Bytes
  pub amount : ℕ
  pub request : ChannelRequest

abbrev pub full_sig_of : Bytes → Bytes → AdaptedSignature
full_sig_of full_sig_r full_sig_s = record { r_bytes = full_sig_r; s_bytes = full_sig_s }

-- `if let Some(expected_hash) = request.result_hash { .. }`
unfoldable pub hash_matches : Option Bytes → Bytes → Bool
hash_matches none actual = true
hash_matches (some expected) actual = actual == expected

-- The assignments of `finalize_with_secret`.
unfoldable pub pay_provider : ℕ → ℤ → Channel Unit
pay_provider amount now = do
  sub_locked amount
  add_earned amount
  set_status open_status
  set_active_request none
  next_nonce
  set_updated_at now

module _ (c : Crypto) where
  open c use {
    Scalar, Point, add_point, smul, basepoint, point_beq, compress, decompress, to_bytes,
    from_canonical_bytes, sha256,
  }

  -- The checks of `finalize_with_secret`, up to the assignments: the result in plain text.
  unfoldable pub open_result : ChannelState → ChannelRequest → Scalar → Option Bytes → Channel Bytes
  unfolding hash_matches
  open_result channel request adaptor_secret secret_bytes_override = do
    pre_sig ← or_raise request.provider_pre_sig invalid_adaptor_signature
    adaptor_point_bytes ← or_raise request.adaptor_point invalid_adaptor_signature
    adaptor_point ← or_raise (decompress adaptor_point_bytes) invalid_adaptor_signature
    provider_pubkey ← or_raise request.provider_pubkey invalid_adaptor_signature
    require (point_beq adaptor_point (smul adaptor_secret basepoint)) invalid_adaptor_signature
    full_sig ← or_raise (adapt c pre_sig adaptor_secret adaptor_point) invalid_adaptor_signature
    require
        (verify_adapted c provider_pubkey
          (build_payment_message c channel.channel_id request.request_id request.amount
            request.request_hash)
          full_sig)
        invalid_adaptor_signature
    encrypted_result ← or_raise request.encrypted_result channel_not_found
    let secret_bytes = unwrap_or secret_bytes_override (to_bytes adaptor_secret)
    let decrypted = decrypt_with_scalar sha256 encrypted_result secret_bytes
    require (hash_matches request.result_hash (sha256 decrypted))
        (internal "Result hash mismatch after decryption")
    pure decrypted

  unfoldable pub finalize_with_secret_in : Scalar → Option Bytes → ℤ → Channel FinalizeOutcome
  unfolding pay_provider
  finalize_with_secret_in adaptor_secret secret_bytes_override now = do
    channel ← get
    require (is_pending channel.status) (invalid_channel_status "expected Pending" channel.status)
    request ← or_raise channel.active_request channel_not_found
    decrypted ← open_result channel request adaptor_secret secret_bytes_override
    pay_provider request.amount now
    pure (record {
      request_id = request.request_id;
      result_bytes = decrypted;
      amount = request.amount;
      request = request;
    })

  unfoldable pub finalize_with_secret :
      ChannelId → Scalar → Option Bytes → ℤ → Vault FinalizeOutcome
  unfolding finalize_with_secret_in
  finalize_with_secret channel_id adaptor_secret secret_bytes_override now =
      at_channel channel_id (finalize_with_secret_in adaptor_secret secret_bytes_override now)

  unfoldable pub finalize_offchain : ChannelId → Bytes → ℤ → Vault FinalizeOutcome
  unfolding finalize_with_secret
  finalize_offchain channel_id adaptor_secret_bytes now = do
    t ← or_raise (from_canonical_bytes adaptor_secret_bytes) invalid_adaptor_signature
    finalize_with_secret channel_id t (some adaptor_secret_bytes) now

  pub record PendingRequestCryptoMaterial : Type 0 where
    pub request : ChannelRequest
    pub pre_sig : AdaptorPreSignature
    pub adaptor_point : Point
    pub provider_pubkey : Bytes

  unfoldable pub pending_request_crypto_materials : ChannelId → Vault PendingRequestCryptoMaterial
  pending_request_crypto_materials channel_id = do
    v ← get
    channel ← or_raise (lookup channel_id v.active_channels) channel_not_found
    require (is_pending channel.status) (invalid_channel_status "expected Pending" channel.status)
    request ← or_raise channel.active_request channel_not_found
    pre_sig ← or_raise request.provider_pre_sig invalid_adaptor_signature
    adaptor_point_bytes ← or_raise request.adaptor_point invalid_adaptor_signature
    adaptor_point ← or_raise (decompress adaptor_point_bytes) invalid_adaptor_signature
    provider_pubkey ← or_raise request.provider_pubkey invalid_adaptor_signature
    pure (record {
      request = request;
      pre_sig = pre_sig;
      adaptor_point = adaptor_point;
      provider_pubkey = provider_pubkey;
    })

  -- The checks of `finalize_onchain_claim` on the published signature: the secret in it.
  unfoldable pub recover_secret :
      ChannelId → PendingRequestCryptoMaterial → Bytes → Bytes → Vault Scalar
  recover_secret channel_id pending full_sig_r full_sig_s = do
    extracted ←
        or_raise (extract c (full_sig_of full_sig_r full_sig_s) pending.pre_sig)
          invalid_adaptor_signature
    r_prime ← or_raise (decompress pending.pre_sig.r_prime) invalid_adaptor_signature
    require (compress (add_point r_prime pending.adaptor_point) == full_sig_r)
        invalid_adaptor_signature
    require
        (verify_adapted c pending.provider_pubkey
          (build_payment_message c channel_id pending.request.request_id pending.request.amount
            pending.request.request_hash)
          (full_sig_of full_sig_r full_sig_s))
        invalid_adaptor_signature
    pure extracted

  unfoldable pub finalize_onchain_claim : ChannelId → Bytes → Bytes → ℤ → Vault FinalizeOutcome
  finalize_onchain_claim channel_id full_sig_r full_sig_s now = do
    pending ← pending_request_crypto_materials channel_id
    extracted ← recover_secret channel_id pending full_sig_r full_sig_s
    finalize_with_secret channel_id extracted (some (to_bytes extracted)) now

unfoldable pub rollback_finalize_offchain_in : ChannelRequest → ℤ → Channel Unit
unfolding is_some
rollback_finalize_offchain_in request now = do
  channel ← get
  require (is_open channel.status && not (is_some channel.active_request))
      (invalid_channel_status "expected Open without active request" channel.status)
  add_locked request.amount
  saturating_sub_earned request.amount
  set_status pending_status
  set_active_request (some request)
  previous_nonce
  set_updated_at now

unfoldable pub rollback_finalize_offchain : ChannelId → ChannelRequest → ℤ → Vault Unit
unfolding rollback_finalize_offchain_in
rollback_finalize_offchain channel_id request now =
    at_channel channel_id (rollback_finalize_offchain_in request now)

unfoldable pub finalize_replayed_request_in : String → ℕ → ℤ → Channel Unit
finalize_replayed_request_in request_id amount_paid now = do
  channel ← get
  require (is_pending channel.status) (invalid_channel_status "expected Pending" channel.status)
  request ← or_raise channel.active_request channel_not_found
  require (request.request_id == request_id) channel_not_found
  require (request.amount == amount_paid)
      (internal "WAL replay amount mismatch for finalized channel request")
  saturating_sub_locked amount_paid
  add_earned amount_paid
  set_status open_status
  set_active_request none
  next_nonce
  set_updated_at now

unfoldable pub finalize_replayed_request : ChannelId → String → ℕ → ℤ → Vault Unit
unfolding finalize_replayed_request_in
finalize_replayed_request channel_id request_id amount_paid now =
    at_channel channel_id (finalize_replayed_request_in request_id amount_paid now)
