-- ===== src/Program/Tests/Toy.antt =====
-- A token program that keeps one number per account, and transactions with signatures in them.
use a.Prelude.{
  ℕ, zero, suc, ◌+◌, ◌-◌, ◌≡◌, ◌≢◌, ◌≤◌, refl, sym, ◌∙◌, inl, inr, Bool-cases, Option, none, some,
  List, [], ◌∷◌, ◌++◌, arith, length, leb, get_elem?, if◌then◌else◌,
}
use mathlib.Core.Option.{some-injective}
use a.Prelude.Equality.{Bytes, Pubkey, ◌==◌, bytes_eq, bytes_beq_iff, beq_refl}
use a.Prelude.Codec.{le_bytes}
use a.Program.Runtime.{Instruction, InstructionsSysvar, TokenProgram, TokenLaws}

abbrev pub key : ℕ → Pubkey
key n = fill 32
  where
    fill : ℕ → Pubkey
    fill zero = []
    fill (suc m) = n ∷ fill m

unfoldable pub moved : Pubkey → Pubkey → ℕ → (Pubkey → ℕ) → Pubkey → ℕ
moved from to amount t k = if k == from then t k - amount else if k == to then t k + amount else t k

unfoldable pub pay : Pubkey → Pubkey → Pubkey → ℕ → (Pubkey → ℕ) → Option (Pubkey → ℕ)
unfolding moved
pay from to authority amount t = if leb amount (t from) then some (moved from to amount t) else none

pay_lem :
    (from to authority : Pubkey) (amount : ℕ) (t t' : Pubkey → ℕ)
    → pay from to authority amount t ≡ some t'
    → (amount ≤ t from) × (t' ≡ moved from to amount t)
unfolding pay
pay_lem from to authority amount t t' h = elim (Bool-cases (leb amount (t from))) [
  | inl enough ↦ (ground arith, sym (some-injective _ _ (sym (rw enough refl) ∙ h)))
  | inr short ↦ absurd (ground arith)
]

moved_from :
    (from to : Pubkey) (amount : ℕ) (t : Pubkey → ℕ) → moved from to amount t from ≡ t from - amount
unfolding moved
moved_from from to amount t = rw (beq_refl from)

moved_to :
    (from to : Pubkey) (amount : ℕ) (t : Pubkey → ℕ)
    → from ≢ to
    → moved from to amount t to ≡ t to + amount
unfolding moved
moved_to from to amount t differ = ground (arith, beq_refl to, bytes_beq_iff to from)

abbrev pub tokens : TokenProgram
tokens = record {
  Tokens = Pubkey → ℕ;
  amount_of = λ t k. t k;
  mint_of = λ t k. key 4;
  owner_of = λ t k. key 1;
  transfer = pay;
}

pub token_laws : TokenLaws tokens
token_laws = record {
  transfer-from = λ from to authority amount t t' differ h.
      let (enough, same) = pay_lem from to authority amount t t' h in
      rw (same, moved_from from to amount t) (omega arith);
  transfer-to = λ from to authority amount t t' differ h.
      let (enough, same) = pay_lem from to authority amount t t' h in
      rw same (moved_to from to amount t differ);
}

-- The data of an Ed25519 instruction with one signature, all in the instruction itself.
abbrev pub signed : Bytes → Pubkey → Bytes → Bytes
signed signature signer message =
    (1 ∷ 0 ∷ 16 ∷ 0 ∷ 255 ∷ 255 ∷ 80 ∷ 0 ∷ 255 ∷ 255 ∷ 112 ∷ 0 ∷ [])
    ++ (le_bytes 2 (length message) ++ (255 ∷ 255 ∷ (signature ++ (signer ++ message))))

abbrev pub ed25519_program : Pubkey
ed25519_program = key 200

abbrev pub ed25519 : Bytes → Pubkey → Bytes → Instruction
ed25519 signature signer message = record {
  program_id = ed25519_program;
  accounts = [];
  ix_data = signed signature signer message;
}

abbrev pub transaction : ℕ → List Instruction → InstructionsSysvar
transaction current instructions = record {
  load_current_index_checked = some current;
  load_instruction_at_checked = get_elem? instructions;
}
