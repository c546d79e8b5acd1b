-- ===== src/Program/Receipt.antt =====
-- programs/a402_vault/src/ed25519_utils.rs: the participant receipt as the program reads it.
use a.Prelude.{ℕ, length}
use a.Prelude.Int.{ℤ}
use a.Prelude.Equality.{Bytes, Pubkey, ◌==◌, nat_eq}
use a.Prelude.Codec.{from_le_bytes, i64_of_bits}
use a.Prelude.Outcome.{Result, ok}
use a.Prelude.Fallible.{◌>>=◌, ◌>>◌, require, index, index_range}
use a.Program.Error.{VaultError, invalid_receipt_message}

abbrev pub participant_receipt_message_len : ℕ
participant_receipt_message_len = 145

pub record ParticipantReceiptMessage : Type 0 where
  pub participant : Pubkey
  pub participant_kind : ℕ
  pub recipient_ata : Pubkey
  pub free_balance : ℕ
  pub locked_balance : ℕ
  pub max_lock_expires_at : ℤ
  pub nonce : ℕ
  pub timestamp : ℤ
  pub snapshot_seqno : ℕ
  pub vault_config : Pubkey

unfoldable pub decode_fields : Bytes → Result VaultError ParticipantReceiptMessage
decode_fields message = do
  participant ← index_range message 0 32
  participant_kind ← index message 32
  recipient_ata ← index_range message 33 65
  free_balance ← index_range message 65 73
  locked_balance ← index_range message 73 81
  max_lock_expires_at ← index_range message 81 89
  nonce ← index_range message 89 97
  timestamp ← index_range message 97 105
  snapshot_seqno ← index_range message 105 113
  vault_config ← index_range message 113 145
  ok (record {
    participant = participant;
    participant_kind = participant_kind;
    recipient_ata = recipient_ata;
    free_balance = from_le_bytes free_balance;
    locked_balance = from_le_bytes locked_balance;
    max_lock_expires_at = i64_of_bits (from_le_bytes max_lock_expires_at);
    nonce = from_le_bytes nonce;
    timestamp = i64_of_bits (from_le_bytes timestamp);
    snapshot_seqno = from_le_bytes snapshot_seqno;
    vault_config = vault_config;
  })

unfoldable pub decode_participant_receipt_message :
    Bytes → Result VaultError ParticipantReceiptMessage
unfolding decode_fields
decode_participant_receipt_message message = do
  require (length message == participant_receipt_message_len) invalid_receipt_message
  decode_fields message
