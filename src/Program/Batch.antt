-- ===== src/Program/Batch.antt =====
-- programs/a402_vault/src: batch_hash.rs, and the pairing of `settle_vault` with `record_audit` in
-- one transaction. A loop over the first 32 instructions is recursion on the number of those left.
use a.Prelude.{
  ℕ, zero, suc, ◌+◌, String, Bool, true, false, ◌||◌, Option, none, some, List, [], ◌∷◌, ◌++◌,
  length, take, drop, get_elem?, ltb, if◌then◌else◌,
}
use a.Prelude.Equality.{Bytes, Pubkey, ◌==◌, ◌!=◌, nat_eq, bytes_eq}
use a.Prelude.Codec.{as_bytes, le_bytes, i64_bits}
use a.Prelude.Slices.{◌>>=◌}
use a.Prelude.Outcome.{Result, ok, err}
use a.Program.Error.{
  VaultError, atomic_chunk_hash_mismatch, record_audit_without_settle, settle_vault_without_audit,
}
use a.Program.State.{SettlementEntry, AuditRecordData}
use a.Program.Runtime.{Instruction, InstructionsSysvar, Platform}

unfoldable pub settlements_bytes : List SettlementEntry → Bytes
settlements_bytes [] = []
settlements_bytes (s ∷ settlements) =
    s.provider_token_account ++ (le_bytes 8 s.amount ++ settlements_bytes settlements)

unfoldable pub records_bytes : List AuditRecordData → Bytes
records_bytes [] = []
records_bytes (r ∷ records) =
    r.encrypted_sender
    ++ (r.encrypted_amount
        ++ (r.provider ++ (le_bytes 8 (i64_bits r.timestamp) ++ records_bytes records)))

-- What an instruction of the other kind holds.
pub record Parsed (A : Type 0) : Type 0 where
  pub batch_id : ℕ
  pub batch_chunk_hash : Bytes
  pub items : List A

module _ (w : Platform) where
  unfoldable pub compute_batch_chunk_hash : ℕ → List SettlementEntry → List AuditRecordData → Bytes
  unfolding settlements_bytes records_bytes
  compute_batch_chunk_hash batch_id settlements records = w.sha256 (
      as_bytes "a402-batch-chunk-v1"
      ++ (le_bytes 8 batch_id ++ (settlements_bytes settlements ++ records_bytes records)))

  -- The discriminator of "global:{name}".
  unfoldable pub instruction_discriminator : String → Bytes
  instruction_discriminator name = take 8 (w.sha256 (as_bytes "global:" ++ as_bytes name))

  unfoldable pub parse_instruction :
      {A : Type 0} → (Bytes → Option (List A × Bytes)) → Instruction → Bytes → Option (Parsed A)
  parse_instruction deserialize ix expected_discriminator =
      if (ix.program_id != w.program_id)
        || (ltb (length ix.ix_data) 48 || (take 8 ix.ix_data != expected_discriminator))
      then none
      else do
        (batch_id, rest) ← w.deserialize_u64 (drop 8 ix.ix_data)
        (batch_chunk_hash, rest') ← w.deserialize_hash rest
        (items, rest'') ← deserialize rest'
        some (record { batch_id = batch_id; batch_chunk_hash = batch_chunk_hash; items = items })

  unfoldable pub parse_record_audit_instruction :
      Instruction → Bytes → Option (Parsed AuditRecordData)
  unfolding parse_instruction
  parse_record_audit_instruction ix disc = parse_instruction w.deserialize_records ix disc

  unfoldable pub parse_settle_vault_instruction :
      Instruction → Bytes → Option (Parsed SettlementEntry)
  unfolding parse_instruction
  parse_settle_vault_instruction ix disc = parse_instruction w.deserialize_settlements ix disc

  -- `ix.accounts.len() < 2 || ix.accounts[1].pubkey != expected`
  unfoldable pub names_other_vault : List Pubkey → Pubkey → Bool
  names_other_vault accounts expected = elim (get_elem? accounts 1) [
    | none ↦ true
    | some key ↦ key != expected
  ]

  -- The parsed instruction, if it is one for the same batch and vault.
  unfoldable pub same_batch :
      {A : Type 0} → ℕ → Bytes → Pubkey → Instruction → Option (Parsed A) → Option (Parsed A)
  unfolding names_other_vault
  same_batch batch_id batch_chunk_hash vault_config ix none = none
  same_batch batch_id batch_chunk_hash vault_config ix (some parsed) =
      if (parsed.batch_id != batch_id)
        || ((parsed.batch_chunk_hash != batch_chunk_hash)
            || names_other_vault ix.accounts vault_config)
      then none
      else some parsed

-- The loop over `i` in `0..32`, from `i` on with `left` rounds left: `candidate` is none for an
-- instruction to skip, and the comparison of the hashes for the one that matches.
unfoldable pub search_pair :
    VaultError
    → (ℕ → Option Instruction)
    → ℕ
    → (Instruction → Option Bool)
    → ℕ
    → ℕ
    → Result VaultError Unit
search_pair missing load current_index candidate zero i = err missing
search_pair missing load current_index candidate (suc left) i =
    let rest = search_pair missing load current_index candidate left (i + 1) in
    elim (i == current_index) [
      | true ↦ rest
      | false ↦ elim (load i) [
        | none ↦ err missing
        | some ix ↦ elim (candidate ix) [
          | none ↦ rest
          | some same ↦ if same then ok tt else err atomic_chunk_hash_mismatch
        ]
      ]
    ]

unfoldable pub verify_pairing :
    VaultError → InstructionsSysvar → (Instruction → Option Bool) → Result VaultError Unit
unfolding search_pair
verify_pairing missing sysvar candidate = elim sysvar.load_current_index_checked [
  | none ↦ err missing
  | some current_index ↦
      search_pair missing sysvar.load_instruction_at_checked current_index candidate 32 0
]

module _ (w : Platform) where
  unfoldable pub audit_candidate :
      ℕ → Bytes → Pubkey → List SettlementEntry → Instruction → Option Bool
  unfolding parse_record_audit_instruction same_batch
  audit_candidate batch_id batch_chunk_hash vault_config settlements ix = do
    parsed ←
        same_batch w batch_id batch_chunk_hash vault_config ix
          (parse_record_audit_instruction w ix (instruction_discriminator w "record_audit"))
    some (compute_batch_chunk_hash w batch_id settlements parsed.items == batch_chunk_hash)

  unfoldable pub verify_record_audit_pairing :
      InstructionsSysvar → ℕ → Bytes → Pubkey → List SettlementEntry → Result VaultError Unit
  unfolding verify_pairing audit_candidate
  verify_record_audit_pairing sysvar batch_id batch_chunk_hash vault_config settlements =
      verify_pairing settle_vault_without_audit sysvar
        (audit_candidate batch_id batch_chunk_hash vault_config settlements)

  unfoldable pub settle_candidate :
      ℕ → Bytes → Pubkey → List AuditRecordData → Instruction → Option Bool
  unfolding parse_settle_vault_instruction same_batch
  settle_candidate batch_id batch_chunk_hash vault_config records ix = do
    parsed ←
        same_batch w batch_id batch_chunk_hash vault_config ix
          (parse_settle_vault_instruction w ix (instruction_discriminator w "settle_vault"))
    some (compute_batch_chunk_hash w batch_id parsed.items records == batch_chunk_hash)

  unfoldable pub verify_settle_vault_pairing :
      InstructionsSysvar → ℕ → Bytes → Pubkey → List AuditRecordData → Result VaultError Unit
  unfolding verify_pairing settle_candidate
  verify_settle_vault_pairing sysvar batch_id batch_chunk_hash vault_config records =
      verify_pairing record_audit_without_settle sysvar
        (settle_candidate batch_id batch_chunk_hash vault_config records)
