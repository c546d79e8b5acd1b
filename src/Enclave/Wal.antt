-- ===== src/Enclave/Wal.antt =====
-- enclave/src/wal.rs: the entries of the write-ahead log, and their replay after a restart. A key, a hash
-- or a text is written as a string, which the crates solana-sdk, hex and base64 decode. The entry that
-- registers a provider is left out.
pub mod Entry
use a.Prelude.{
  ℕ, ◌+◌, String, Bool, true, false, ◌||◌, Option, none, some, List, [], ◌∷◌, length, ltb, u64_mod,
  unwrap_or, if◌then◌else◌,
}
use a.Prelude.Int.{ℤ, leb_ℤ}
use a.Prelude.Equality.{Bytes, Pubkey, ◌==◌, ◌!=◌, nat_eq, string_eq, bytes_eq}
use a.Prelude.Map.{Map, lookup, insert}
use a.Prelude.Outcome.{
  Result, ok, err, panic, Action, get, put, pure, require, or_raise, raise, saturating_add, ◌>>=◌,
  ◌>>◌,
}
use a.Enclave.Crypto.{Crypto}
use a.Enclave.Error.{EnclaveError}
use a.Enclave.State.{ChannelId, PendingWithdrawal, Reservation, SettlementRecord, VaultState}
use a.Enclave.State.Status.{ReservationStatus, reserved, settled_offchain, cancelled, expired}
use a.Enclave.AdaptorSig.{AdaptorPreSignature}
use a.Enclave.Access.{Vault}
use a.Enclave.Balance.{
  apply_deposit, reserve_balance, release_balance, authorize_withdrawal, apply_withdrawal,
  expire_pending_withdrawal,
}
use a.Enclave.Payment.{settle_payment}
use a.Enclave.Confirm.{apply_batch_confirmation}
use a.Enclave.Locks.{refresh_client_max_lock_expires_at, is_reserved}
use a.Enclave.Asc.Lifecycle.{open_channel_with_id, close_channel_with_settlement_id}
use a.Enclave.Asc.Request.{submit_request, deliver_adaptor, expire_replayed_request}
use a.Enclave.Asc.Finalize.{finalize_replayed_request}
use a.Enclave.BtcLedger.{UtxoKey, BtcUtxoLedger, LedgerError, add, spend}

pub data WalEntry : Type 0 where
  deposit_applied : (client : String) (amount slot : ℕ) (tx_signature : String) → WalEntry
  withdraw_authorized :
      (client recipient_ata : String) (amount withdraw_nonce : ℕ) (issued_at expires_at : ℤ)
      → WalEntry
  withdraw_applied :
      (client recipient_ata : String) (amount withdraw_nonce : ℕ) (expires_at : ℤ) (slot : ℕ)
      (tx_signature : String)
      → WalEntry
  withdraw_expired : (client : String) (withdraw_nonce : ℕ) → WalEntry
  reservation_created :
      (verification_id : String) (reservation_id : Option String)
      (payment_id client provider_id : String) (amount : ℕ)
      (request_hash payment_details_hash : Option String) (created_at expires_at : Option ℤ)
      → WalEntry
  reservation_cancelled : (verification_id reason : String) → WalEntry
  reservation_expired : (verification_id : String) → WalEntry
  settlement_committed :
      (settlement_id verification_id provider_id : String) (amount : ℕ) (settled_at : Option ℤ)
      → WalEntry
  participant_receipt_issued participant_receipt_mirrored :
      (participant : String) (participant_kind nonce : ℕ) → WalEntry
  client_balance_seeded :
      (client : String) (free locked : ℕ) (max_lock_expires_at : ℤ)
      (total_deposited total_withdrawn : ℕ)
      → WalEntry
  batch_submitted : (batch_id provider_count total_amount : ℕ) → WalEntry
  batch_confirmed : (batch_id : ℕ) (tx_signature : String) (settlement_ids : List String) → WalEntry
  channel_opened : (channel_id client provider_id : String) (initial_deposit : ℕ) → WalEntry
  channel_request_submitted :
      (channel_id request_id : String) (amount : ℕ) (request_hash : Option String) → WalEntry
  channel_request_expired : (channel_id request_id : String) (amount : ℕ) → WalEntry
  channel_adaptor_delivered :
      (channel_id request_id : String)
      (adaptor_point pre_sig_r_prime pre_sig_s_prime encrypted_result result_hash
        provider_pubkey : Option String)
      → WalEntry
  channel_finalized : (channel_id request_id : String) (amount_paid : ℕ) → WalEntry
  channel_closed :
      (channel_id : String) (returned_to_client provider_earned : ℕ) (settlement_id : Option String)
      → WalEntry
  btc_utxo_added : (txid : String) (vout value_sat : ℕ) (source : Option String) → WalEntry
  btc_utxo_spent : (txid : String) (vout : ℕ) (in_settlement_txid : String) → WalEntry
  btc_change_created : (txid : String) (vout value_sat : ℕ) → WalEntry

-- The messages of a failed replay.
pub data ReplayError : Type 0 where
  invalid missing missing_reservation provider_id_mismatch amount_mismatch : String → ReplayError
  withdraw_mismatch withdraw_client_mismatch : ℕ → ReplayError
  missing_provider : String → ReplayError
  replay_failed : EnclaveError → ReplayError
  ledger_failed : LedgerError → ReplayError

-- The parts of `AppState` that the replay writes.
pub record AppState : Type 0 where
  pub vault : VaultState
  pub payment_id_index : Map String String
  pub processed_signatures : List String
  pub last_processed_signature : Option String
  pub last_finalized_slot : ℕ
  pub btc_ledger : BtcUtxoLedger

abbrev pub App : Type 0 → Type 0
App A = Action ReplayError AppState A

-- `state.vault.op(..).map_err(wal_replay_error)?`
unfoldable pub on_vault : {A : Type 0} → Vault A → App A
on_vault op s =
    let (r, v) = op s.vault in
    (elim r [ ok x ↦ ok x | err e ↦ err (replay_failed e) | panic ↦ panic ], record s { vault = v })

unfoldable pub on_ledger : {A : Type 0} → Action LedgerError BtcUtxoLedger A → App A
on_ledger op s =
    let (r, ledger) = op s.btc_ledger in
    (
      elim r [ ok x ↦ ok x | err e ↦ err (ledger_failed e) | panic ↦ panic ],
      record s { btc_ledger = ledger },
    )

abbrev pub change : (AppState → AppState) → App Unit
change f s = (ok tt, f s)

abbrev pub max_ℕ : ℕ → ℕ → ℕ
max_ℕ x y = if ltb x y then y else x

-- What a transaction on chain leaves: its signature and its slot.
abbrev pub mark_processed : String → ℕ → App Unit
mark_processed tx_signature slot = change (λ s. record s {
  processed_signatures = tx_signature ∷ s.processed_signatures;
  last_processed_signature = some tx_signature;
  last_finalized_slot = max_ℕ s.last_finalized_slot slot;
})

-- `withdraw_nonce.fetch_max(withdraw_nonce.saturating_add(1))`
abbrev pub pass_withdraw_nonce : ℕ → App Unit
pass_withdraw_nonce nonce = change (λ s. record s {
  vault = record s.vault { withdraw_nonce = max_ℕ s.vault.withdraw_nonce (saturating_add nonce 1) };
})

abbrev pub pass_receipt_nonce : ℕ → App Unit
pass_receipt_nonce nonce = change (λ s. record s {
  vault = record s.vault { receipt_nonce = max_ℕ s.vault.receipt_nonce (saturating_add nonce 1) };
})

abbrev pub put_reservation : String → Reservation → App Unit
put_reservation id r =
    change
      (λ s. record s { vault = record s.vault { reservations = insert id r s.vault.reservations } })
