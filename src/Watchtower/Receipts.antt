-- ===== src/Watchtower/Receipts.antt =====
-- watchtower/src/receipt_store.rs: the newest receipt of every participant. `to_string` is the text of a
-- key and of a kind.
pub mod Newest
use a.Prelude.{ℕ, Bool, true, false, String, Option, none, some, List, [], ◌∷◌, ltb}
use Prim.Native.String.{◌++◌ as string_append}
use a.Prelude.Int.{ℤ}
use a.Prelude.Equality.{Pubkey, string_eq}
use a.Prelude.Map.{Map, lookup, insert}

pub record StoredReceipt : Type 0 where
  pub participant : String
  pub participant_kind : ℕ
  pub recipient_ata : String
  pub free_balance : ℕ
  pub locked_balance : ℕ
  pub max_lock_expires_at : ℤ
  pub nonce : ℕ
  pub timestamp : ℤ
  pub snapshot_seqno : ℕ
  pub vault_config : String
  pub signature : String
  pub message : String

pub record ReceiptKey : Type 0 where
  pub vault : Pubkey
  pub participant : Pubkey
  pub participant_kind : ℕ

abbrev pub ReceiptStore : Type 0
ReceiptStore = Map String StoredReceipt

-- `Some(existing) => receipt.nonce > existing.nonce, None => true`
unfoldable pub should_store : StoredReceipt → Option StoredReceipt → Bool
should_store receipt none = true
should_store receipt (some existing) = ltb existing.nonce receipt.nonce

unfoldable pub nonce_of : Option StoredReceipt → ℕ
nonce_of none = 0
nonce_of (some r) = r.nonce

-- `load_from_disk`, on the entries that were parsed.
unfoldable pub load_entries : List (String × StoredReceipt) → ReceiptStore → ReceiptStore
load_entries [] receipts = receipts
load_entries ((key, receipt) ∷ entries) receipts =
    load_entries entries (insert key receipt receipts)

module _ (pubkey_to_string : Pubkey → String) (u8_to_string : ℕ → String) where
  unfoldable pub storage_key : ReceiptKey → String
  storage_key key = string_append (pubkey_to_string key.vault) (
      string_append ":" (
        string_append (pubkey_to_string key.participant)
          (string_append ":" (u8_to_string key.participant_kind))))

  unfoldable pub store_receipt : ReceiptKey → StoredReceipt → ReceiptStore → Bool × ReceiptStore
  unfolding should_store
  store_receipt key receipt receipts =
      let key_text = storage_key key in
      elim (should_store receipt (lookup key_text receipts)) [
        | true ↦ (true, insert key_text receipt receipts)
        | false ↦ (false, receipts)
      ]

  unfoldable pub get_receipt : ReceiptKey → ReceiptStore → Option StoredReceipt
  get_receipt key receipts = lookup (storage_key key) receipts

  unfoldable pub get_nonce : ReceiptKey → ReceiptStore → ℕ
  unfolding nonce_of
  get_nonce key receipts = nonce_of (lookup (storage_key key) receipts)
