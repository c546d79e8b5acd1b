-- ===== src/Program/Runtime.antt =====
-- What the program takes from the Solana runtime and the token program.
use a.Prelude.{ℕ, ◌+◌, ◌≡◌, ◌≢◌, Option, some, List}
use a.Prelude.Equality.{Bytes, Pubkey}
use a.Program.State.{SettlementEntry, AuditRecordData}

pub record Instruction : Type 0 where
  pub program_id : Pubkey
  pub accounts : List Pubkey
  pub ix_data : Bytes

-- The results of reading the instructions sysvar.
pub record InstructionsSysvar : Type 0 where
  pub load_current_index_checked : Option ℕ
  pub load_instruction_at_checked : ℕ → Option Instruction

-- `anchor_spl::token`: a transfer names its source, destination and authority.
pub record TokenProgram : Type 1 where
  pub Tokens : Type 0
  pub amount_of : Tokens → Pubkey → ℕ
  pub mint_of : Tokens → Pubkey → Pubkey
  pub owner_of : Tokens → Pubkey → Pubkey
  pub transfer : Pubkey → Pubkey → Pubkey → ℕ → Tokens → Option Tokens

-- A transfer that succeeds between two accounts takes the amount from one and gives it to the other.
pub record TokenLaws (p : TokenProgram) : Type 0 where
  pub transfer-from :
      (from to authority : Pubkey) (amount : ℕ) (t t' : p.Tokens)
      → from ≢ to
      → p.transfer from to authority amount t ≡ some t'
      → p.amount_of t' from + amount ≡ p.amount_of t from
  pub transfer-to :
      (from to authority : Pubkey) (amount : ℕ) (t t' : p.Tokens)
      → from ≢ to
      → p.transfer from to authority amount t ≡ some t'
      → p.amount_of t' to ≡ p.amount_of t to + amount

-- The address of the program, the hash of the crate sha2, derived addresses and the Borsh decoders,
-- each of which gives the value and the bytes after it.
pub record Platform : Type 0 where
  pub program_id : Pubkey
  pub sha256 : Bytes → Bytes
  pub find_program_address : List Bytes → Pubkey × ℕ
  pub deserialize_u64 : Bytes → Option (ℕ × Bytes)
  pub deserialize_hash : Bytes → Option (Bytes × Bytes)
  pub deserialize_records : Bytes → Option (List AuditRecordData × Bytes)
  pub deserialize_settlements : Bytes → Option (List SettlementEntry × Bytes)
