-- ===== src/Enclave/Asc/Request.antt =====
-- enclave/src/asc_manager.rs: a request on a channel, from its submission to the delivery of the
-- adaptor pre-signature, its expiry, and the rollback of each. Each function is its code on the
-- channel (`…_in`), run on the entry of `active_channels`.
use a.Prelude.{ℕ, String, Bool, true, false, not, ◌&&◌, ◌||◌, Option, none, some, leb}
use a.Prelude.Int.{ℤ, leb_ℤ}
use a.Prelude.Equality.{Bytes, Pubkey, ◌==◌, nat_eq, string_eq, contains}
use a.Prelude.Outcome.{get, pure, require, or_raise, lift, add_i64, ◌>>=◌, ◌>>◌}
use a.Program.AscClaim.{build_asc_payment_message}
use a.Enclave.Crypto.{Crypto}
use a.Enclave.AdaptorSig.{AdaptorPreSignature, pre_verify}
use a.Enclave.Error.{
  channel_not_found, invalid_channel_status, channel_request_id_reused, insufficient_balance,
  channel_request_expired, invalid_adaptor_signature, internal,
}
use a.Enclave.State.{ChannelId, ChannelRequest}
use a.Enclave.State.Status.{
  ChannelStatus, open_status, locked_status, pending_status, is_open, is_locked, is_pending,
}
use a.Enclave.Access.{Vault, Channel, at_channel}
use a.Enclave.Asc.Field.{
  request_expiry_sec, add_free, sub_free, add_locked, saturating_sub_free, saturating_sub_locked,
  set_status, set_active_request, next_nonce, previous_nonce, set_updated_at, mark_used,
  unmark_used,
}

pub record ExpiredRequestOutcome : Type 0 where
  pub channel_id : String
  pub client : Pubkey
  pub previous_status : ChannelStatus
  pub request : ChannelRequest

unfoldable pub submit_request_in : String → ℕ → Bytes → ℤ → Channel Unit
submit_request_in request_id amount request_hash now = do
  channel ← get
  require (is_open channel.status) (invalid_channel_status "expected Open" channel.status)
  require (not (contains channel.used_request_ids request_id)) channel_request_id_reused
  require (leb amount channel.client_free) insufficient_balance
  sub_free amount
  add_locked amount
  set_status locked_status
  next_nonce
  set_updated_at now
  mark_used request_id
  expires_at ← lift (add_i64 now request_expiry_sec)
  set_active_request (
      some (record {
        request_id = request_id;
        amount = amount;
        request_hash = request_hash;
        provider_pubkey = none;
        adaptor_point = none;
        provider_pre_sig = none;
        encrypted_result = none;
        result_hash = none;
        created_at = now;
        expires_at = expires_at;
      }))

unfoldable pub submit_request : ChannelId → String → ℕ → Bytes → ℤ → Vault Unit
unfolding submit_request_in
submit_request channel_id request_id amount request_hash now =
    at_channel channel_id (submit_request_in request_id amount request_hash now)

unfoldable pub rollback_submit_request_in : String → ℤ → Channel Unit
rollback_submit_request_in request_id now = do
  channel ← get
  request ← or_raise channel.active_request channel_not_found
  require (request.request_id == request_id) channel_not_found
  saturating_sub_locked request.amount
  add_free request.amount
  set_status open_status
  set_active_request none
  previous_nonce
  set_updated_at now
  unmark_used request_id

unfoldable pub rollback_submit_request : ChannelId → String → ℤ → Vault Unit
unfolding rollback_submit_request_in
rollback_submit_request channel_id request_id now =
    at_channel channel_id (rollback_submit_request_in request_id now)

module _ (c : Crypto) where
  unfoldable pub build_payment_message : String → String → ℕ → Bytes → Bytes
  build_payment_message channel_id request_id amount request_hash =
      build_asc_payment_message c.sha256 channel_id request_id amount request_hash

  unfoldable pub deliver_adaptor_in :
      Bytes → AdaptorPreSignature → Bytes → Bytes → Bytes → ℤ → Channel Unit
  deliver_adaptor_in adaptor_point_bytes pre_sig encrypted_result result_hash provider_pubkey now =
      do
        channel ← get
        require (is_locked channel.status) (invalid_channel_status "expected Locked" channel.status)
        request ← or_raise channel.active_request channel_not_found
        require (leb_ℤ now request.expires_at) channel_request_expired
        adaptor_point ← or_raise (c.decompress adaptor_point_bytes) invalid_adaptor_signature
        require
            (pre_verify c provider_pubkey
              (build_payment_message channel.channel_id request.request_id request.amount
                request.request_hash)
              adaptor_point pre_sig)
            invalid_adaptor_signature
        set_active_request (
            some (record request {
              provider_pubkey = some provider_pubkey;
              adaptor_point = some adaptor_point_bytes;
              provider_pre_sig = some pre_sig;
              encrypted_result = some encrypted_result;
              result_hash = some result_hash;
            }))
        set_status pending_status
        next_nonce
        set_updated_at now

  unfoldable pub deliver_adaptor :
      ChannelId → Bytes → AdaptorPreSignature → Bytes → Bytes → Bytes → ℤ → Vault Unit
  unfolding deliver_adaptor_in
  deliver_adaptor channel_id adaptor_point_bytes pre_sig encrypted_result result_hash
        provider_pubkey now =
      at_channel channel_id (
        deliver_adaptor_in adaptor_point_bytes pre_sig encrypted_result result_hash provider_pubkey
          now)

unfoldable pub rollback_deliver_adaptor_in : String → ℤ → Channel Unit
rollback_deliver_adaptor_in request_id now = do
  channel ← get
  require (is_pending channel.status) (invalid_channel_status "expected Pending" channel.status)
  request ← or_raise channel.active_request channel_not_found
  require (request.request_id == request_id) channel_not_found
  set_active_request (
      some (record request {
        provider_pubkey = none;
        adaptor_point = none;
        provider_pre_sig = none;
        encrypted_result = none;
        result_hash = none;
      }))
  set_status locked_status
  previous_nonce
  set_updated_at now

unfoldable pub rollback_deliver_adaptor : ChannelId → String → ℤ → Vault Unit
unfolding rollback_deliver_adaptor_in
rollback_deliver_adaptor channel_id request_id now =
    at_channel channel_id (rollback_deliver_adaptor_in request_id now)

-- The stale request that the tests of `expire_request` let through.
unfoldable pub stale_request : Bool → Option ChannelRequest → ℤ → Option ChannelRequest
stale_request false request now = none
stale_request true none now = none
stale_request true (some request) now = elim (leb_ℤ now request.expires_at) [
  | true ↦ none
  | false ↦ some request
]

-- Both funds go back to the client, and the channel is open again.
release_request : ℕ → ℤ → Channel Unit
release_request amount now = do
  saturating_sub_locked amount
  add_free amount
  set_status open_status
  set_active_request none
  next_nonce
  set_updated_at now

expire_stale : Option ChannelRequest → ℤ → Channel (Option ExpiredRequestOutcome)
unfolding release_request
expire_stale none now = pure none
expire_stale (some request) now = do
  channel ← get
  release_request request.amount now
  pure (
      some (record {
        channel_id = channel.channel_id;
        client = channel.client;
        previous_status = channel.status;
        request = request;
      }))

unfoldable pub expire_request_in : ℤ → Channel (Option ExpiredRequestOutcome)
unfolding stale_request expire_stale
expire_request_in now = do
  channel ← get
  expire_stale
      (stale_request (is_locked channel.status || is_pending channel.status) channel.active_request
        now)
      now

unfoldable pub expire_request : ChannelId → ℤ → Vault (Option ExpiredRequestOutcome)
unfolding expire_request_in
expire_request channel_id now = at_channel channel_id (expire_request_in now)

unfoldable pub is_some : Option ChannelRequest → Bool
is_some none = false
is_some (some request) = true

unfoldable pub rollback_expire_request_in : ExpiredRequestOutcome → ℤ → Channel Unit
unfolding is_some
rollback_expire_request_in outcome now = do
  channel ← get
  require (is_open channel.status && not (is_some channel.active_request))
      (invalid_channel_status "expected Open without active request" channel.status)
  saturating_sub_free outcome.request.amount
  add_locked outcome.request.amount
  set_status outcome.previous_status
  set_active_request (some outcome.request)
  previous_nonce
  set_updated_at now

unfoldable pub rollback_expire_request : ExpiredRequestOutcome → ℤ → Vault Unit
unfolding rollback_expire_request_in
rollback_expire_request outcome now =
    at_channel outcome.channel_id (rollback_expire_request_in outcome now)

unfoldable pub expire_replayed_request_in : String → ℕ → ℤ → Channel Unit
unfolding release_request
expire_replayed_request_in request_id amount now = do
  channel ← get
  require (is_locked channel.status || is_pending channel.status)
      (invalid_channel_status "expected Locked or Pending" channel.status)
  request ← or_raise channel.active_request channel_not_found
  require (request.request_id == request_id) channel_not_found
  require (request.amount == amount)
      (internal "WAL replay amount mismatch for expired channel request")
  release_request amount now

unfoldable pub expire_replayed_request : ChannelId → String → ℕ → ℤ → Vault Unit
unfolding expire_replayed_request_in
expire_replayed_request channel_id request_id amount now =
    at_channel channel_id (expire_replayed_request_in request_id amount now)
