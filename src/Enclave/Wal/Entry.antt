-- ===== src/Enclave/Wal/Entry.antt =====
-- enclave/src/wal.rs: `replay_entry` and the replay of a log. The clock that the channel operations read
-- is an argument.
use a.Prelude.{ℕ, String, Option, none, some, List, [], ◌∷◌, length, unwrap_or, if◌then◌else◌}
use a.Prelude.Int.{ℤ, beq_ℤ}
use a.Prelude.Equality.{Bytes, Pubkey, ◌==◌, nat_eq, string_eq, bytes_eq}
use a.Prelude.Map.{Map, lookup, insert}
use a.Prelude.Outcome.{get, pure, require, or_raise, ◌>>=◌, ◌>>◌}
use a.Enclave.Crypto.{Crypto}
use a.Enclave.State.{ClientBalance, SettlementRecord}
use a.Enclave.State.Status.{ReservationStatus, reserved, settled_offchain, cancelled, expired}
use a.Enclave.Balance.{
  apply_deposit, reserve_balance, release_balance, authorize_withdrawal, apply_withdrawal,
  expire_pending_withdrawal,
}
use a.Enclave.Payment.{settle_payment}
use a.Enclave.Confirm.{apply_batch_confirmation}
use a.Enclave.Locks.{refresh_client_max_lock_expires_at, is_reserved}
use a.Enclave.Asc.Lifecycle.{open_channel_with_id, close_channel_with_settlement_id}
use a.Enclave.Asc.Request.{submit_request, deliver_adaptor, expire_replayed_request}
use a.Enclave.Asc.Finalize.{finalize_replayed_request}
use a.Enclave.BtcLedger.{add, spend}
use a.Enclave.Wal.{
  WalEntry, deposit_applied, withdraw_authorized, withdraw_applied, withdraw_expired,
  reservation_created, reservation_cancelled, reservation_expired, settlement_committed,
  participant_receipt_issued, participant_receipt_mirrored, client_balance_seeded, batch_submitted,
  batch_confirmed, channel_opened, channel_request_submitted, channel_request_expired,
  channel_adaptor_delivered, channel_finalized, channel_closed, btc_utxo_added, btc_utxo_spent,
  btc_change_created, invalid, missing, missing_reservation, provider_id_mismatch, amount_mismatch,
  withdraw_mismatch, withdraw_client_mismatch, missing_provider, App, on_vault, on_ledger, change,
  mark_processed, pass_withdraw_nonce, pass_receipt_nonce, put_reservation,
}

-- A reservation that ends without a settlement gives its amount back, if it still holds it.
unfoldable pub end_reservation : String → ReservationStatus → App Unit
unfolding on_vault
end_reservation verification_id status = do
  s ← get
  r ← or_raise (lookup verification_id s.vault.reservations) (missing_reservation verification_id)
  put_reservation verification_id (record r { status = status })
  if is_reserved r.status then on_vault (release_balance r.client r.amount) else pure tt

abbrev pub set_history : String → SettlementRecord → App Unit
set_history settlement_id r = change (λ s. record s {
  vault = record s.vault { settlement_history = insert settlement_id r s.vault.settlement_history };
})

unfoldable pub replay_settlement : String → String → String → ℕ → Option ℤ → App Unit
unfolding on_vault
replay_settlement settlement_id verification_id provider_id amount settled_at = do
  s ← get
  r ← or_raise (lookup verification_id s.vault.reservations) (missing_reservation verification_id)
  require (r.provider_id == provider_id) (provider_id_mismatch settlement_id)
  require (r.amount == amount) (amount_mismatch settlement_id)
  let timestamp = unwrap_or settled_at r.created_at
  put_reservation verification_id (
      if is_reserved r.status
      then record r {
        status = settled_offchain;
        settlement_id = some settlement_id;
        settled_at = some timestamp;
      }
      else r)
  on_vault (settle_payment r.client r.amount r.provider_id settlement_id timestamp)
  u ← get
  provider ← or_raise (lookup r.provider_id u.vault.providers) (missing_provider r.provider_id)
  set_history settlement_id (record {
    settlement_id = settlement_id;
    client = r.client;
    provider = provider.settlement_token_account;
    amount = r.amount;
    timestamp = timestamp;
  })

module _ (c : Crypto)
    (pubkey_from_str hex_decode base64_decode txid_from_str : String → Option Bytes) where
  abbrev pub parse_pubkey : String → String → App Pubkey
  parse_pubkey field value = or_raise (pubkey_from_str value) (invalid field)

  abbrev pub parse_btc_txid : String → App Bytes
  parse_btc_txid value = or_raise (txid_from_str value) (invalid "BTC txid")

  abbrev pub decode_fixed_hex_32 : String → String → App Bytes
  decode_fixed_hex_32 field value = do
    bytes ← or_raise (hex_decode value) (invalid field)
    require (length bytes == 32) (invalid field)
    pure bytes

  -- `value.ok_or_else(..).and_then(|value| decode_fixed_hex_32(field, &value))?`
  abbrev pub required_hex : String → Option String → App Bytes
  required_hex field value = do
    text ← or_raise value (missing field)
    decode_fixed_hex_32 field text

  unfoldable pub replay_withdraw_applied : String → String → ℕ → ℕ → ℤ → ℕ → String → App Unit
  unfolding on_vault
  replay_withdraw_applied client_text recipient_text amount withdraw_nonce expires_at slot
        tx_signature =
      do
        client ← parse_pubkey "client" client_text
        recipient_ata ← parse_pubkey "recipient_ata" recipient_text
        applied ← on_vault (apply_withdrawal withdraw_nonce)
        require (applied.client == client) (withdraw_mismatch withdraw_nonce)
        require (applied.recipient_ata == recipient_ata) (withdraw_mismatch withdraw_nonce)
        require (applied.amount == amount) (withdraw_mismatch withdraw_nonce)
        require (beq_ℤ applied.expires_at expires_at) (withdraw_mismatch withdraw_nonce)
        mark_processed tx_signature slot
        pass_withdraw_nonce withdraw_nonce
        on_vault (refresh_client_max_lock_expires_at client)
        pure tt

  unfoldable pub replay_reservation :
      String
      → Option String
      → String
      → String
      → String
      → ℕ
      → Option String
      → Option String
      → Option ℤ
      → Option ℤ
      → App Unit
  unfolding on_vault
  replay_reservation verification_id reservation_text payment_id client_text provider_id amount
        request_text details_text created expires =
      do
        client ← parse_pubkey "client" client_text
        reservation_id ← or_raise reservation_text (missing "reservation_id")
        request_hash ← required_hex "request_hash" request_text
        payment_details_hash ← required_hex "payment_details_hash" details_text
        created_at ← or_raise created (missing "created_at")
        expires_at ← or_raise expires (missing "expires_at")
        on_vault (reserve_balance client amount)
        change (λ s. record s {
          payment_id_index = insert payment_id verification_id s.payment_id_index;
        })
        put_reservation verification_id (record {
          verification_id = verification_id;
          reservation_id = reservation_id;
          payment_id = payment_id;
          client = client;
          provider_id = provider_id;
          amount = amount;
          request_hash = request_hash;
          payment_details_hash = payment_details_hash;
          status = reserved;
          created_at = created_at;
          expires_at = expires_at;
          settlement_id = none;
          settled_at = none;
        })

  unfoldable pub replay_delivery :
      String
      → Option String
      → Option String
      → Option String
      → Option String
      → Option String
      → Option String
      → ℤ
      → App Unit
  unfolding on_vault
  replay_delivery channel_id point_text r_text s_text result_text hash_text key_text now = do
    adaptor_point ← required_hex "adaptor_point" point_text
    r_prime ← required_hex "pre_sig_r_prime" r_text
    s_prime ← required_hex "pre_sig_s_prime" s_text
    result_base64 ← or_raise result_text (missing "encrypted_result")
    encrypted_result ← or_raise (base64_decode result_base64) (invalid "encrypted_result")
    result_hash ← required_hex "result_hash" hash_text
    provider_pubkey ← required_hex "provider_pubkey" key_text
    on_vault (
        deliver_adaptor c channel_id adaptor_point (record { r_prime = r_prime; s_prime = s_prime })
          encrypted_result result_hash provider_pubkey now)
    pure tt

  abbrev pub add_utxo : String → ℕ → ℕ → App Unit
  add_utxo txid_text vout value_sat = do
    txid ← parse_btc_txid txid_text
    on_ledger (add (record { txid = txid; vout = vout }) value_sat)

  -- The fresh identifier is only for a channel that was closed without a settlement.
  unfoldable pub replay_entry : String → ℤ → WalEntry → App Unit
  unfolding replay_withdraw_applied replay_reservation replay_delivery replay_settlement
      end_reservation on_vault on_ledger
  replay_entry uuid now (deposit_applied client_text amount slot tx_signature) = do
    client ← parse_pubkey "client" client_text
    on_vault (apply_deposit client amount)
    mark_processed tx_signature slot
  replay_entry uuid now
        (withdraw_authorized client_text recipient_text amount nonce issued expires) =
      do
        client ← parse_pubkey "client" client_text
        recipient_ata ← parse_pubkey "recipient_ata" recipient_text
        on_vault (
            authorize_withdrawal (record {
              client = client;
              recipient_ata = recipient_ata;
              amount = amount;
              withdraw_nonce = nonce;
              issued_at = issued;
              expires_at = expires;
            }))
        pass_withdraw_nonce nonce
        on_vault (refresh_client_max_lock_expires_at client)
        pure tt
  replay_entry uuid now
        (withdraw_applied client recipient_ata amount nonce expires slot signature) =
      replay_withdraw_applied client recipient_ata amount nonce expires slot signature
  replay_entry uuid now (withdraw_expired client_text withdraw_nonce) = do
    client ← parse_pubkey "client" client_text
    gone ← on_vault (expire_pending_withdrawal withdraw_nonce)
    require (gone.client == client) (withdraw_client_mismatch withdraw_nonce)
    on_vault (refresh_client_max_lock_expires_at client)
    pure tt
  replay_entry uuid now
        (reservation_created id rid pid client provider amount rh dh created expires) =
      replay_reservation id rid pid client provider amount rh dh created expires
  replay_entry uuid now (reservation_cancelled verification_id reason) =
      end_reservation verification_id cancelled
  replay_entry uuid now (reservation_expired verification_id) =
      end_reservation verification_id expired
  replay_entry uuid now (settlement_committed settlement_id id provider_id amount settled_at) =
      replay_settlement settlement_id id provider_id amount settled_at
  replay_entry uuid now (participant_receipt_issued participant kind nonce) =
      pass_receipt_nonce nonce
  replay_entry uuid now (participant_receipt_mirrored participant kind nonce) =
      pass_receipt_nonce nonce
  replay_entry uuid now
        (client_balance_seeded client_text free locked max_lock total_deposited total_withdrawn) =
      do
        client ← parse_pubkey "client" client_text
        change (λ s. record s {
          vault = record s.vault {
            client_balances =
                insert client
                  (record {
                    free = free;
                    locked = locked;
                    max_lock_expires_at = max_lock;
                    total_deposited = total_deposited;
                    total_withdrawn = total_withdrawn;
                  })
                  s.vault.client_balances;
          };
        })
  replay_entry uuid now (batch_submitted batch_id provider_count total_amount) = pure tt
  replay_entry uuid now (batch_confirmed batch_id tx_signature settlement_ids) = change (λ s.
      record s { vault = apply_batch_confirmation settlement_ids batch_id tx_signature s.vault })
  replay_entry uuid now (channel_opened channel_id client_text provider_id initial_deposit) = do
    client ← parse_pubkey "client" client_text
    on_vault (open_channel_with_id channel_id client provider_id initial_deposit now)
  replay_entry uuid now (channel_request_submitted channel_id request_id amount hash_text) = do
    request_hash ← required_hex "request_hash" hash_text
    on_vault (submit_request channel_id request_id amount request_hash now)
  replay_entry uuid now (channel_request_expired channel_id request_id amount) =
      on_vault (expire_replayed_request channel_id request_id amount now)
  replay_entry uuid now (channel_adaptor_delivered id request_id point r s result hash key) =
      replay_delivery id point r s result hash key now
  replay_entry uuid now (channel_finalized channel_id request_id amount_paid) =
      on_vault (finalize_replayed_request channel_id request_id amount_paid now)
  replay_entry uuid now (channel_closed channel_id returned earned settlement_id) = do
    on_vault (close_channel_with_settlement_id channel_id settlement_id uuid now)
    pure tt
  replay_entry uuid now (btc_utxo_added txid vout value_sat source) = add_utxo txid vout value_sat
  replay_entry uuid now (btc_change_created txid vout value_sat) = add_utxo txid vout value_sat
  replay_entry uuid now (btc_utxo_spent txid_text vout in_settlement_txid) = do
    txid ← parse_btc_txid txid_text
    on_ledger (spend (record { txid = txid; vout = vout }))
    pure tt

  -- Every record of the log, with the identifier and the time that its replay reads.
  unfoldable pub replay_entries : List (String × ℤ × WalEntry) → App Unit
  unfolding replay_entry
  replay_entries [] = pure tt
  replay_entries ((uuid, now, entry) ∷ entries) = do
    replay_entry uuid now entry
    replay_entries entries

  -- `refresh_client_max_lock_expires_at` for the keys of the balances.
  unfoldable pub refresh_all : Map Pubkey ClientBalance → App Unit
  unfolding on_vault
  refresh_all [] = pure tt
  refresh_all ((client, balance) ∷ balances) = do
    on_vault (refresh_client_max_lock_expires_at client)
    refresh_all balances

  unfoldable pub replay_app_state_from : List (String × ℤ × WalEntry) → App Unit
  unfolding replay_entries refresh_all
  replay_app_state_from records = do
    replay_entries records
    s ← get
    refresh_all s.vault.client_balances
