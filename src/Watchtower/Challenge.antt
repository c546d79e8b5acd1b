-- ===== src/Watchtower/Challenge.antt =====
-- watchtower/src/challenger.rs: which requests are challenged, and the transaction of a challenge. The
-- parsers of texts and the account of the vault, as the node returns it, are arguments.
pub mod Read
pub mod Accepted
pub mod Found
pub mod Parsed
use Prim.Native.String.{◌++◌ as string_append}
use a.Prelude.{
  ℕ, ◌+◌, ◌%◌, ◌^◌, Bool, true, false, not, ◌||◌, String, Option, none, some, List, [], ◌∷◌, ◌++◌,
  length, take, get_elem?, leb, ltb,
}
use a.Prelude.Int.{ℤ, ltb_ℤ}
use a.Prelude.Equality.{Bytes, Pubkey, ◌==◌, ◌!=◌, nat_eq}
use a.Prelude.Codec.{le_bytes, from_le_bytes, i64_bits, i64_of_bits, as_bytes}
use a.Prelude.Slices.{get_range, ◌>>=◌}
use a.Prelude.Outcome.{Result, ok}
use a.Prelude.Fallible.{◌>>=◌ as ◌>>=?◌, require, ok_or}
use a.Program.Runtime.{Instruction}
use a.Watchtower.Receipts.{
  StoredReceipt, ReceiptKey, ReceiptStore, storage_key, get_nonce, get_receipt,
}

pub record OnChainForceSettleRequest : Type 0 where
  pub address : Pubkey
  pub vault : Pubkey
  pub participant : Pubkey
  pub participant_kind : ℕ
  pub recipient_ata : Pubkey
  pub free_balance_due : ℕ
  pub locked_balance_due : ℕ
  pub max_lock_expires_at : ℤ
  pub receipt_nonce : ℕ
  pub dispute_deadline : ℤ
  pub is_resolved : Bool

-- Past the test of the length no range is out of bounds, so none stands only for too short data.
unfoldable pub parse_force_settle_request : Pubkey → Bytes → Option OnChainForceSettleRequest
parse_force_settle_request address account_data = do
  whole ← get_range account_data 0 219
  vault ← get_range account_data 9 41
  participant ← get_range account_data 41 73
  participant_kind ← get_elem? account_data 73
  recipient_ata ← get_range account_data 74 106
  free_balance_due ← get_range account_data 106 114
  locked_balance_due ← get_range account_data 114 122
  max_lock_expires_at ← get_range account_data 122 130
  receipt_nonce ← get_range account_data 130 138
  initiated_at ← get_range account_data 202 210
  dispute_deadline ← get_range account_data 210 218
  is_resolved ← get_elem? account_data 218
  some (record {
    address = address;
    vault = vault;
    participant = participant;
    participant_kind = participant_kind;
    recipient_ata = recipient_ata;
    free_balance_due = from_le_bytes free_balance_due;
    locked_balance_due = from_le_bytes locked_balance_due;
    max_lock_expires_at = i64_of_bits (from_le_bytes max_lock_expires_at);
    receipt_nonce = from_le_bytes receipt_nonce;
    dispute_deadline = i64_of_bits (from_le_bytes dispute_deadline);
    is_resolved = is_resolved != 0;
  })

-- The header, the offsets of the signature, the key and the message, and the three.
unfoldable pub build_ed25519_verify_instruction : Pubkey → Pubkey → Bytes → Bytes → Instruction
build_ed25519_verify_instruction ed25519_program pubkey signature message = record {
  program_id = ed25519_program;
  accounts = [];
  ix_data =
      (1 ∷ 0 ∷ [])
      ++ (le_bytes 2 48
          ++ (le_bytes 2 65535
              ++ (le_bytes 2 16
                  ++ (le_bytes 2 65535
                      ++ (le_bytes 2 112
                          ++ (le_bytes 2 (length message % 2 ^ 16)
                              ++ (le_bytes 2 65535 ++ (pubkey ++ (signature ++ message)))))))));
}

unfoldable pub anchor_discriminator : (Bytes → Bytes) → String → Bytes
anchor_discriminator sha256 name = take 8 (sha256 (as_bytes (string_append "global:" name)))

-- The messages of a failed submission.
pub data ChallengeError : Type 0 where
  invalid_signature_base64 invalid_message_base64 invalid_vault_config vault_config_not_found
        vault_config_too_short invalid_signature_length invalid_recipient_ata :
      ChallengeError

pub record Addresses : Type 0 where
  pub program_id : Pubkey
  pub ed25519_program : Pubkey
  pub instructions_sysvar : Pubkey
  pub challenger : Pubkey

unfoldable pub challenge_data : (Bytes → Bytes) → Pubkey → StoredReceipt → Bytes → Bytes → Bytes
unfolding anchor_discriminator
challenge_data sha256 recipient_ata receipt signature message =
    anchor_discriminator sha256 "force_settle_challenge"
    ++ (recipient_ata
        ++ (le_bytes 8 receipt.free_balance
            ++ (le_bytes 8 receipt.locked_balance
                ++ (le_bytes 8 (i64_bits receipt.max_lock_expires_at)
                    ++ (le_bytes 8 receipt.nonce
                        ++ (signature ++ (le_bytes 4 (length message % 2 ^ 32) ++ message)))))))

module _ (sha256 : Bytes → Bytes) (base64_decode pubkey_from_str : String → Option Bytes)
    (get_account_data : Pubkey → Option Bytes) (a : Addresses) where
  -- `submit_challenge` up to the submission.
  unfoldable pub submit_challenge :
      Pubkey → StoredReceipt → Result ChallengeError (List Instruction)
  unfolding build_ed25519_verify_instruction challenge_data
  submit_challenge force_settle_address receipt =
      ok_or (base64_decode receipt.signature) invalid_signature_base64 >>=? λ signature_bytes.
      ok_or (base64_decode receipt.message) invalid_message_base64 >>=? λ message_bytes.
      ok_or (pubkey_from_str receipt.vault_config) invalid_vault_config >>=? λ vault_config.
      ok_or (get_account_data vault_config) vault_config_not_found >>=? λ vault_config_data.
      ok_or (get_range vault_config_data 50 82) vault_config_too_short >>=? λ vault_signer_bytes.
      require (length signature_bytes == 64) invalid_signature_length >>=? λ _.
      ok_or (pubkey_from_str receipt.recipient_ata) invalid_recipient_ata >>=? λ recipient_ata. ok (
        build_ed25519_verify_instruction a.ed25519_program vault_signer_bytes signature_bytes
          message_bytes
        ∷ record {
          program_id = a.program_id;
          accounts =
              a.challenger ∷ vault_config ∷ force_settle_address ∷ a.instructions_sysvar ∷ [];
          ix_data = challenge_data sha256 recipient_ata receipt signature_bytes message_bytes;
        }
        ∷ [])

-- The body of the loop of `scan_and_challenge` up to the submission: the receipt to challenge with.
unfoldable pub find_challenge :
    (Pubkey → String)
    → (ℕ → String)
    → ℤ
    → ReceiptStore
    → Pubkey
    → Bytes
    → Option (OnChainForceSettleRequest × StoredReceipt)
unfolding parse_force_settle_request get_nonce get_receipt
find_challenge pubkey_to_string u8_to_string now receipts address account_data =
    elim (length account_data != 219) [
      | true ↦ none
      | false ↦ do
        request ← parse_force_settle_request address account_data
        let key : ReceiptKey = record {
          vault = request.vault;
          participant = request.participant;
          participant_kind = request.participant_kind;
        }
        elim (request.is_resolved || ltb_ℤ request.dispute_deadline now) [
          | true ↦ none
          | false ↦
              elim (leb (get_nonce pubkey_to_string u8_to_string key receipts)
                request.receipt_nonce) [
                  | true ↦ none
                  | false ↦ do
                    receipt ← get_receipt pubkey_to_string u8_to_string key receipts
                    some (request, receipt)
                ]
        ]
    ]
