-- ===== src/Enclave/Batch/Submit/Paired.antt =====
-- enclave/src/batch.rs: the instructions of `submit_atomic_chunk` against the pairing of the program.
-- `BorshLaws` is what the Anchor client and the program agree on.
use a.Prelude.{
  ℕ, suc, String, length-take, get_elem?, ◌<◌, ◌≡◌, refl, Bool, true, false, Option, some, List, [],
  ◌∷◌, ◌++◌, length, take, drop, u64_mod, arith, length-append, take-append, drop-append, ltb,
}
use a.Prelude.Equality.{Bytes, bytes_eq, nat_eq, beq_refl, bne_refl}
use a.Prelude.Codec.{as_bytes, le_bytes, length-le_bytes}
use a.Prelude.Outcome.{ok}
use a.Program.Error.{VaultError, settle_vault_without_audit, record_audit_without_settle}
use a.Program.State.{SettlementEntry, AuditRecordData}
use a.Program.Runtime.{Instruction, InstructionsSysvar, Platform}
use a.Program.Batch.{
  Parsed, instruction_discriminator, parse_instruction, parse_record_audit_instruction,
  parse_settle_vault_instruction, names_other_vault, same_batch, search_pair, verify_pairing,
  audit_candidate, settle_candidate, verify_record_audit_pairing, verify_settle_vault_pairing,
}
use a.Enclave.Batch.{BatchSettlementEntry}
use a.Enclave.Batch.Chunks.{BatchChunk, audits}
use a.Enclave.Batch.Hash.{
  compute_batch_chunk_hash as chunk_hash, settlement_entries, audit_records,
  compute_batch_chunk_hash_agrees,
}
use a.Enclave.Batch.Submit.{
  SolanaAccounts, settle_instruction, record_audit_instruction, submit_atomic_chunk,
}

-- The program's digests are 32 bytes, and Borsh reads what it has written.
pub record BorshLaws (w : Platform) (encode_settlements : List SettlementEntry → Bytes)
    (encode_records : List AuditRecordData → Bytes) : Type 0 where
  pub sha256_length : (m : Bytes) → length (w.sha256 m) ≡ 32
  pub read_u64 :
      (n : ℕ) (rest : Bytes)
      → n < u64_mod
      → w.deserialize_u64 (le_bytes 8 n ++ rest) ≡ some (n, rest)
  pub read_hash :
      (hash rest : Bytes) → length hash ≡ 32 → w.deserialize_hash (hash ++ rest) ≡ some (hash, rest)
  pub read_settlements :
      (l : List SettlementEntry) → w.deserialize_settlements (encode_settlements l) ≡ some (l, [])
  pub read_records :
      (l : List AuditRecordData) → w.deserialize_records (encode_records l) ≡ some (l, [])

-- The transaction as the program sees it while it runs the instruction at `current`.
abbrev pub sysvar_of : List Instruction → ℕ → InstructionsSysvar
sysvar_of instructions current = record {
  load_current_index_checked = some current;
  load_instruction_at_checked = get_elem? instructions;
}

module _ (missing : VaultError) (load : ℕ → Option Instruction)
    (candidate : Instruction → Option Bool) (left : ℕ) (ix : Instruction) where
  -- The search from the second instruction finds the first, and from the first the second.
  found_first :
      load 0 ≡ some ix
      → candidate ix ≡ some true
      → search_pair missing load 1 candidate (suc left) 0 ≡ ok tt
  unfolding search_pair
  found_first h c = rw (h, c) refl

  found_second :
      load 1 ≡ some ix
      → candidate ix ≡ some true
      → search_pair missing load 0 candidate (suc (suc left)) 0 ≡ ok tt
  unfolding search_pair
  found_second h c = rw (h, c) refl

module _ (w : Platform) (encode_settlements : List SettlementEntry → Bytes)
    (encode_records : List AuditRecordData → Bytes)
    (laws : BorshLaws w encode_settlements encode_records) (a : SolanaAccounts) where
  -- An instruction of the program that carries a batch is read back.
  parse_instruction-reads :
      {A : Type 0} (deserialize : Bytes → Option (List A × Bytes)) (ix : Instruction)
      (disc body hash : Bytes) (batch_id : ℕ) (items : List A)
      → ix.program_id ≡ w.program_id
      → ix.ix_data ≡ disc ++ (le_bytes 8 batch_id ++ (hash ++ body))
      → length disc ≡ 8
      → batch_id < u64_mod
      → length hash ≡ 32
      → deserialize body ≡ some (items, [])
      → parse_instruction w deserialize ix disc
        ≡ some (record { batch_id = batch_id; batch_chunk_hash = hash; items = items })
  unfolding parse_instruction
  parse_instruction-reads deserialize ix disc body hash batch_id items p d l b h e =
      let rest = le_bytes 8 batch_id ++ (hash ++ body) in
      let long : ltb (length ix.ix_data) 48 ≡ false = rw d (
        ground (
          arith,
          length-append disc rest,
          length-append (le_bytes 8 batch_id) (hash ++ body),
          length-le_bytes 8 batch_id,
          length-append hash body,
        )) in
      let start : take 8 ix.ix_data ≡ disc = rw d (take-append 8 disc rest l) in
      let after : drop 8 ix.ix_data ≡ rest = rw d (drop-append 8 disc rest l) in
      let same = bne_refl disc in
      let own = bne_refl w.program_id in
      let u = laws.read_u64 batch_id (hash ++ body) b in
      let v = laws.read_hash hash body h in rw (p, long, start, after, same, own, u, v, e) refl

  length-instruction_discriminator : (name : String) → length (instruction_discriminator w name) ≡ 8
  unfolding instruction_discriminator
  length-instruction_discriminator name =
      omega
        (arith, length-take 8 (w.sha256 (as_bytes "global:" ++ as_bytes name)), laws.sha256_length)

  abbrev body_hash : ℕ → List BatchSettlementEntry → BatchChunk → Bytes
  body_hash batch_id es chunk = chunk_hash w.sha256 batch_id es (audits chunk.entries)

  length-body_hash :
      (batch_id : ℕ) (es : List BatchSettlementEntry) (chunk : BatchChunk)
      → length (body_hash batch_id es chunk) ≡ 32
  unfolding chunk_hash
  length-body_hash batch_id es chunk = laws.sha256_length _

  abbrev audit_ix : ℕ → List BatchSettlementEntry → BatchChunk → Instruction
  audit_ix batch_id es chunk =
      record_audit_instruction w encode_settlements encode_records a batch_id
        (body_hash batch_id es chunk) chunk

  abbrev settle_ix : ℕ → List BatchSettlementEntry → BatchChunk → Instruction
  settle_ix batch_id es chunk =
      settle_instruction w encode_settlements encode_records a batch_id
        (body_hash batch_id es chunk) es

  -- An instruction whose second account is the vault is for the batch that it carries.
  same_batch-same :
      {A : Type 0} (ix : Instruction) (parsed : Parsed A)
      → get_elem? ix.accounts 1 ≡ some a.vault_config
      → same_batch w parsed.batch_id parsed.batch_chunk_hash a.vault_config ix (some parsed)
        ≡ some parsed
  unfolding same_batch names_other_vault
  same_batch-same ix parsed h =
      ground
        (arith, bne_refl parsed.batch_id, bne_refl parsed.batch_chunk_hash, bne_refl a.vault_config)

  audit_is_candidate :
      (batch_id : ℕ) (es : List BatchSettlementEntry) (chunk : BatchChunk)
      → batch_id < u64_mod
      → audit_candidate w batch_id
          (body_hash batch_id es chunk)
          a.vault_config
          (settlement_entries es)
          (audit_ix batch_id es chunk)
        ≡ some true
  unfolding audit_candidate parse_record_audit_instruction same_batch names_other_vault
      record_audit_instruction
  audit_is_candidate batch_id es chunk b =
      let hash = body_hash batch_id es chunk in
      let items = audit_records (audits chunk.entries) in
      let read =
        parse_instruction-reads w.deserialize_records (audit_ix batch_id es chunk)
          (instruction_discriminator w "record_audit") (encode_records items) hash batch_id items
          refl refl (length-instruction_discriminator "record_audit") b
          (length-body_hash batch_id es chunk) (laws.read_records items) in
      let agrees = compute_batch_chunk_hash_agrees w batch_id es (audits chunk.entries) in
      let shared =
        same_batch-same (audit_ix batch_id es chunk)
          (record { batch_id = batch_id; batch_chunk_hash = hash; items = items }) refl in
      rw (read, shared, agrees, beq_refl hash) refl

  settle_is_candidate :
      (batch_id : ℕ) (es : List BatchSettlementEntry) (chunk : BatchChunk)
      → batch_id < u64_mod
      → settle_candidate w batch_id
          (body_hash batch_id es chunk)
          a.vault_config
          (audit_records (audits chunk.entries))
          (settle_ix batch_id es chunk)
        ≡ some true
  unfolding settle_candidate parse_settle_vault_instruction settle_instruction
  settle_is_candidate batch_id es chunk b =
      let hash = body_hash batch_id es chunk in
      let items = settlement_entries es in
      let read =
        parse_instruction-reads w.deserialize_settlements (settle_ix batch_id es chunk)
          (instruction_discriminator w "settle_vault") (encode_settlements items) hash batch_id
          items refl refl (length-instruction_discriminator "settle_vault") b
          (length-body_hash batch_id es chunk) (laws.read_settlements items) in
      let agrees = compute_batch_chunk_hash_agrees w batch_id es (audits chunk.entries) in
      let shared =
        same_batch-same (settle_ix batch_id es chunk)
          (record { batch_id = batch_id; batch_chunk_hash = hash; items = items }) refl in
      rw (read, shared, agrees, beq_refl hash) refl

  -- The two instructions that the enclave submits for a chunk pass the mutual checks of the vault
  -- program: the settlement finds its audit and the audit its settlement, for the hash that the
  -- enclave computes, where the program's Borsh decoders read what the client's encoders write and
  -- the batch is in the range of a u64.
  pub submit_atomic_chunk_paired :
      (batch_id : ℕ) (es : List BatchSettlementEntry) (chunk : BatchChunk) (hash : Bytes)
      → batch_id < u64_mod
      → hash ≡ chunk_hash w.sha256 batch_id es (audits chunk.entries)
      → (verify_record_audit_pairing w
            (sysvar_of
              (submit_atomic_chunk w encode_settlements encode_records a batch_id chunk es hash)
              0)
            batch_id
            hash
            a.vault_config
            (settlement_entries es)
          ≡ ok tt)
        × (verify_settle_vault_pairing w
              (sysvar_of
                (submit_atomic_chunk w encode_settlements encode_records a batch_id chunk es hash)
                1)
              batch_id
              hash
              a.vault_config
              (audit_records (audits chunk.entries))
            ≡ ok tt)
  unfolding submit_atomic_chunk verify_record_audit_pairing verify_settle_vault_pairing
      verify_pairing
  submit_atomic_chunk_paired batch_id es chunk hash b h =
      let own = body_hash batch_id es chunk in
      let load = get_elem? (settle_ix batch_id es chunk ∷ audit_ix batch_id es chunk ∷ []) in
      rw h (
        found_second settle_vault_without_audit load
            (audit_candidate w batch_id own a.vault_config (settlement_entries es)) 30
            (audit_ix batch_id es chunk) refl (audit_is_candidate batch_id es chunk b),
        found_first record_audit_without_settle load
            (settle_candidate w batch_id own a.vault_config (audit_records (audits chunk.entries)))
            31 (settle_ix batch_id es chunk) refl (settle_is_candidate batch_id es chunk b),
      )
