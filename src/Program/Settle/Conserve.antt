-- ===== src/Program/Settle/Conserve.antt =====
-- A settlement pays what it records, and only beside its audit
-- (programs/a402_vault/src/instructions/settle_vault.rs).
use a.Prelude.{
  ℕ, zero, suc, ◌+◌, ◌<◌, ◌≡◌, ◌≢◌, inl, inr, true, Bool, Bool-cases, refl, sym, ◌∙◌, some, Option,
  List, [], ◌∷◌, arith, Option-cases, u64_mod, take, drop, get_elem?, ◌++◌,
}
use a.Prelude.Int.{ℤ}
use a.Prelude.Equality.{Bytes, Pubkey, bytes_eq, nat_eq, ◌==◌, bytes_beq_iff}
use a.Prelude.Codec.{as_bytes}
use a.Prelude.Outcome.{Result-cases, ok, checked_add}
use a.Program.Error.{VaultError, settle_vault_without_audit}
use a.Program.State.{SettlementEntry, AuditRecordData, Accounts}
use a.Program.Runtime.{Instruction, InstructionsSysvar, TokenProgram, TokenLaws, Platform}
use a.Program.Batch.{
  compute_batch_chunk_hash, instruction_discriminator, parse_record_audit_instruction, same_batch,
  names_other_vault, parse_instruction, search_pair, verify_pairing, audit_candidate,
  verify_record_audit_pairing,
}
use a.Program.Settle.{settle_entries, settle_vault}

unfoldable pub sum_amounts : List SettlementEntry → ℕ
sum_amounts [] = 0
sum_amounts (s ∷ settlements) = s.amount + sum_amounts settlements

-- The accounts with so much more settled.
abbrev pub counted : Accounts → ℕ → Accounts
counted a amount = record a {
  vault_config = record a.vault_config {
    lifetime_settled = a.vault_config.lifetime_settled + amount;
  };
}

-- None of the accounts is the vault's own.
abbrev pub AllOther : Pubkey → List Pubkey → Type 0
AllOther vault_account [] = Unit
AllOther vault_account (key ∷ keys) = (vault_account ≢ key) × AllOther vault_account keys

module _ (p : TokenProgram) (laws : TokenLaws p) where
  open p use {Tokens, amount_of}

  settle_entries-Pays :
      (vault_key va : Pubkey) (settlements : List SettlementEntry) (keys : List Pubkey)
      (total total' : ℕ) (tokens tokens' : Tokens)
      → AllOther va keys
      → settle_entries p vault_key va settlements keys total tokens ≡ ok (total', tokens')
      → (total' ≡ total + sum_amounts settlements)
        × (amount_of tokens' va + sum_amounts settlements ≡ amount_of tokens va)
  unfolding settle_entries sum_amounts checked_add
  settle_entries-Pays vault_key va [] keys total total' tokens tokens' other h = ground arith
  settle_entries-Pays vault_key va (s ∷ settlements) [] total total' tokens tokens' other h =
      ground arith
  settle_entries-Pays vault_key va (s ∷ settlements) (k ∷ keys) total total' tokens tokens' other
        h =
      elim (Option-cases (p.transfer va k vault_key s.amount tokens)) [
        | inl refused ↦ absurd (ground arith)
        | inr (paid, transferred) ↦
            let from = laws.transfer-from va k vault_key s.amount tokens paid other.0 transferred in
            ground (
              arith,
              settle_entries-Pays vault_key va settlements keys (total + s.amount) total' paid
                  tokens' other.1,
            )
      ]

  -- A settlement that succeeds, to accounts other than the vault's, takes exactly the sum of its
  -- entries out of the vault's account and adds that sum to the lifetime counter, which stays in
  -- range; nothing else of the accounts changes.
  pub settle_vault-Pays :
      (w : Platform) (sysvar : InstructionsSysvar) (now : ℤ) (vault_signer vault_account : Pubkey)
      (batch_id : ℕ) (hash : Bytes) (settlements : List SettlementEntry) (keys : List Pubkey)
      (a a' : Accounts) (tokens tokens' : Tokens)
      → AllOther vault_account keys
      → settle_vault p w sysvar now vault_signer vault_account batch_id hash settlements keys a
          tokens
        ≡ ok (a', tokens')
      → (amount_of tokens' vault_account + sum_amounts settlements ≡ amount_of tokens vault_account)
        × (a' ≡ counted a (sum_amounts settlements))
        × (a.vault_config.lifetime_settled + sum_amounts settlements < u64_mod)
  unfolding settle_vault checked_add
  settle_vault-Pays w sysvar now vs va batch_id hash settlements keys a a' tokens tokens' other h =
      elim (Result-cases (settle_entries p a.vault_key va settlements keys 0 tokens)) [
        | inl ((total, paid), e) ↦
            let pays =
              settle_entries-Pays a.vault_key va settlements keys 0 total tokens paid other e in
            ground arith
        | inr other ↦ absurd (ground arith)
      ]

-- What a successful search has found: an instruction other than the current one, at an index that
-- loads and that is one of the first 32, for which the hashes agree.
abbrev pub Found : (ℕ → Option Instruction) → ℕ → (Instruction → Option Bool) → ℕ → Type 0
Found load current candidate bound =
    (i : ℕ) × (ix : Instruction) × (i < bound)
    × (i ≢ current)
    × (load i ≡ some ix)
    × (candidate ix ≡ some true)

search_pair-Found :
    (missing : VaultError) (load : ℕ → Option Instruction) (current : ℕ)
    (candidate : Instruction → Option Bool) (left i : ℕ)
    → search_pair missing load current candidate left i ≡ ok tt
    → Found load current candidate (i + left)
unfolding search_pair
search_pair-Found missing load current candidate zero i h = ground arith
search_pair-Found missing load current candidate (suc left) i h =
    let recur = search_pair-Found missing load current candidate left (i + 1) in
    elim (Bool-cases (i == current)) [
      | inl same ↦ shift (recur (ground arith))
      | inr differ ↦ elim (Option-cases (load i)) [
        | inl end ↦ ground arith
        | inr (ix, loads) ↦ elim (Option-cases (candidate ix)) [
          | inl skip ↦ shift (recur (ground arith))
          | inr (b, e) ↦ (i, ix, ground arith, ground arith, loads, ground arith)
        ]
      ]
    ]
  where
    shift :
        Found load current candidate (i + 1 + left) → Found load current candidate (i + suc left)
    shift (j, ix, below, other, loads, same) = (j, ix, ground arith, other, loads, same)

module _ (w : Platform) where
  -- The instruction is a `record_audit` of the program that names the vault as its second account; its
  -- data are the discriminator, the batch, the hash and records that hash with the settlements to
  -- that hash.
  abbrev pub IsAudit : ℕ → Bytes → Pubkey → List SettlementEntry → Instruction → Type 0
  IsAudit batch_id hash vault_key settlements ix =
      (records : List AuditRecordData) × (rest : Bytes) × (rest' : Bytes) × (rest'' : Bytes)
      × (ix.program_id ≡ w.program_id)
      × (get_elem? ix.accounts 1 ≡ some vault_key)
      × (take 8 ix.ix_data ≡ take 8 (w.sha256 (as_bytes "global:" ++ as_bytes "record_audit")))
      × (w.deserialize_u64 (drop 8 ix.ix_data) ≡ some (batch_id, rest))
      × (w.deserialize_hash rest ≡ some (hash, rest'))
      × (w.deserialize_records rest' ≡ some (records, rest''))
      × (compute_batch_chunk_hash w batch_id settlements records ≡ hash)

  audit_candidate-IsAudit :
      (batch_id : ℕ) (hash : Bytes) (vault_key : Pubkey) (settlements : List SettlementEntry)
      (ix : Instruction)
      → audit_candidate w batch_id hash vault_key settlements ix ≡ some true
      → IsAudit batch_id hash vault_key settlements ix
  unfolding audit_candidate same_batch names_other_vault parse_record_audit_instruction
      parse_instruction instruction_discriminator
  audit_candidate-IsAudit batch_id hash vault_key settlements ix h =
      elim (Option-cases (w.deserialize_u64 (drop 8 ix.ix_data))) [
        | inl e ↦ absurd (ground arith)
        | inr ((batch, rest), e) ↦ elim (Option-cases (w.deserialize_hash rest)) [
          | inl e' ↦ absurd (ground arith)
          | inr ((chunk_hash, rest'), e') ↦ elim (Option-cases (w.deserialize_records rest')) [
            | inl e'' ↦ absurd (ground arith)
            | inr ((records, rest''), e'') ↦ elim (Option-cases (get_elem? ix.accounts 1)) [
              | inl none_there ↦ absurd (ground arith)
              | inr (key, there) ↦
                  let program = bytes_beq_iff ix.program_id w.program_id in
                  let same_vault = bytes_beq_iff key vault_key in
                  let same_hash = bytes_beq_iff chunk_hash hash in
                  let disc =
                    bytes_beq_iff (take 8 ix.ix_data)
                      (take 8 (w.sha256 (as_bytes "global:" ++ as_bytes "record_audit"))) in
                  let whole =
                    bytes_beq_iff (compute_batch_chunk_hash w batch_id settlements records) hash in
                  (
                    records,
                    rest,
                    rest',
                    rest'',
                    ground arith,
                    ground arith,
                    ground arith,
                    ground arith,
                    ground arith,
                    e'',
                    ground arith,
                  )
            ]
          ]
        ]
      ]

  -- What the search for the audit has found.
  abbrev pub IsAudited : InstructionsSysvar → ℕ → Bytes → Pubkey → List SettlementEntry → Type 0
  IsAudited sysvar batch_id hash vault_key settlements =
      (current : ℕ) × (i : ℕ) × (ix : Instruction) × (sysvar.load_current_index_checked
        ≡ some current)
      × (i < 32)
      × (i ≢ current)
      × (sysvar.load_instruction_at_checked i ≡ some ix)
      × IsAudit batch_id hash vault_key settlements ix

  pairing-IsAudited :
      (sysvar : InstructionsSysvar) (batch_id : ℕ) (hash : Bytes) (vault_key : Pubkey)
      (settlements : List SettlementEntry)
      → verify_record_audit_pairing w sysvar batch_id hash vault_key settlements ≡ ok tt
      → IsAudited sysvar batch_id hash vault_key settlements
  unfolding verify_record_audit_pairing verify_pairing
  pairing-IsAudited sysvar batch_id hash vault_key settlements h =
      let candidate = audit_candidate w batch_id hash vault_key settlements in
      elim (Option-cases sysvar.load_current_index_checked) [
        | inl absent ↦ absurd (ground arith)
        | inr (current, e) ↦
            let (i, ix, below, other, loads, same) =
              search_pair-Found settle_vault_without_audit sysvar.load_instruction_at_checked
                current candidate 32 0 (sym (rw e refl) ∙ h) in
            (
              current,
              i,
              ix,
              e,
              below,
              other,
              loads,
              audit_candidate-IsAudit batch_id hash vault_key settlements ix same,
            )
      ]

  -- A settlement that succeeds stands in a transaction with its audit: one of the first 32
  -- instructions, other than itself, is an instruction of the same program that starts with the
  -- discriminator of record_audit and has the vault's key as its second account; its data name the
  -- same batch and hash, and its records and these settlements hash to that hash.
  pub settle_vault-IsAudited :
      (p : TokenProgram) (sysvar : InstructionsSysvar) (now : ℤ)
      (vault_signer vault_account : Pubkey) (batch_id : ℕ) (hash : Bytes)
      (settlements : List SettlementEntry) (keys : List Pubkey) (a : Accounts) (tokens : p.Tokens)
      (result : Accounts × p.Tokens)
      → settle_vault p w sysvar now vault_signer vault_account batch_id hash settlements keys a
          tokens
        ≡ ok result
      → IsAudited sysvar batch_id hash a.vault_key settlements
  unfolding settle_vault
  settle_vault-IsAudited p sysvar now vs va batch_id hash settlements keys a tokens result h =
      pairing-IsAudited sysvar batch_id hash a.vault_key settlements (ground arith)
