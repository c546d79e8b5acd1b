-- ===== src/Program/Ed25519.antt =====
-- programs/a402_vault/src/ed25519_utils.rs: the signature that an Ed25519 instruction of the same
-- transaction has verified. `ed25519_program` is the address of the precompile.
use a.Prelude.{ℕ, ◌+◌, ◌-◌, Bool, ◌||◌, [], ◌∷◌, length, leb}
use a.Prelude.Equality.{Bytes, Pubkey, ◌==◌, nat_eq, bytes_eq}
use a.Prelude.Codec.{from_le_bytes}
use a.Prelude.Outcome.{Result, ok}
use a.Prelude.Fallible.{◌>>=◌, ◌>>◌, require, ok_or, index, index_range}
use a.Program.Error.{VaultError, invalid_ed25519_instruction, invalid_vault_signer}
use a.Program.Runtime.{InstructionsSysvar}

pub record VerifiedEd25519Signature : Type 0 where
  pub signature : Bytes
  pub message : Bytes

unfoldable pub instruction_index_refs_embedded_data : ℕ → ℕ → Bool
instruction_index_refs_embedded_data instruction_index ed25519_index =
    instruction_index == 65535 || instruction_index == ed25519_index

-- `u16::from_le_bytes([data[i], data[i + 1]])`
unfoldable pub read_u16 : Bytes → ℕ → Result VaultError ℕ
read_u16 ix_data i = do
  low ← index ix_data i
  high ← index ix_data (i + 1)
  ok (from_le_bytes (low ∷ high ∷ []))

-- The data of the Ed25519 instruction at `ed25519_index`.
unfoldable pub read_signature : Bytes → ℕ → Bytes → Result VaultError VerifiedEd25519Signature
unfolding read_u16 instruction_index_refs_embedded_data
read_signature ix_data ed25519_index expected_pubkey = do
  require (leb 16 (length ix_data)) invalid_ed25519_instruction
  num_signatures ← index ix_data 0
  require (num_signatures == 1) invalid_ed25519_instruction
  signature_instruction_index ← read_u16 ix_data 4
  require (instruction_index_refs_embedded_data signature_instruction_index ed25519_index)
      invalid_ed25519_instruction
  signature_offset ← read_u16 ix_data 2
  require (leb (signature_offset + 64) (length ix_data)) invalid_ed25519_instruction
  signature ← index_range ix_data signature_offset (signature_offset + 64)
  pubkey_offset ← read_u16 ix_data 6
  require (leb (pubkey_offset + 32) (length ix_data)) invalid_ed25519_instruction
  public_key_instruction_index ← read_u16 ix_data 8
  require (instruction_index_refs_embedded_data public_key_instruction_index ed25519_index)
      invalid_ed25519_instruction
  pubkey_bytes ← index_range ix_data pubkey_offset (pubkey_offset + 32)
  require (pubkey_bytes == expected_pubkey) invalid_vault_signer
  message_instruction_index ← read_u16 ix_data 14
  require (instruction_index_refs_embedded_data message_instruction_index ed25519_index)
      invalid_ed25519_instruction
  message_offset ← read_u16 ix_data 10
  message_size ← read_u16 ix_data 12
  require (leb (message_offset + message_size) (length ix_data)) invalid_ed25519_instruction
  message ← index_range ix_data message_offset (message_offset + message_size)
  ok (record { signature = signature; message = message })

module _ (ed25519_program : Pubkey) where
  unfoldable pub verify_ed25519_signature_details_relative :
      InstructionsSysvar → ℕ → Bytes → Result VaultError VerifiedEd25519Signature
  unfolding read_signature
  verify_ed25519_signature_details_relative sysvar offset_from_current expected_pubkey = do
    current_index ← ok_or sysvar.load_current_index_checked invalid_ed25519_instruction
    require (leb offset_from_current current_index) invalid_ed25519_instruction
    ed25519_ix ←
        ok_or (sysvar.load_instruction_at_checked (current_index - offset_from_current))
          invalid_ed25519_instruction
    require (ed25519_ix.program_id == ed25519_program) invalid_ed25519_instruction
    read_signature ed25519_ix.ix_data (current_index - offset_from_current) expected_pubkey

  unfoldable pub verify_ed25519_signature_details :
      InstructionsSysvar → Pubkey → Result VaultError VerifiedEd25519Signature
  unfolding verify_ed25519_signature_details_relative
  verify_ed25519_signature_details sysvar expected_pubkey =
      verify_ed25519_signature_details_relative sysvar 1 expected_pubkey

  unfoldable pub verify_ed25519_signature : InstructionsSysvar → Pubkey → Result VaultError Bytes
  unfolding verify_ed25519_signature_details
  verify_ed25519_signature sysvar expected_pubkey = do
    verified ← verify_ed25519_signature_details sysvar expected_pubkey
    ok verified.message
