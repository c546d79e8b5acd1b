-- ===== src/Enclave/Tests/Submissions.antt =====
-- A chunk of one entry is submitted, under encodings that can be read back, and logged.
use a.Prelude.{
  ℕ, zero, suc, ◌≡◌, refl, Bool, true, Option, none, some, String, List, [], ◌∷◌, ◌++◌, length,
  take, drop, take-append, drop-append, arith,
}
use a.Prelude.Int.{ℤ, pos, negsuc}
use a.Prelude.Codec.{le_bytes, length-le_bytes, from_le_bytes, from_le_bytes-le_bytes}
use a.Prelude.Equality.{Bytes, Pubkey}
use a.Prelude.Outcome.{ok}
use a.Prelude.Slices.{◌>>=◌}
use a.Program.State.{SettlementEntry, AuditRecordData}
use a.Program.Runtime.{Instruction, Platform}
use a.Program.Batch.{verify_record_audit_pairing, verify_settle_vault_pairing}
use a.Program.Tests.Toy.{key}
use a.Enclave.Tests.Toy.{toy_hash, length-toy_hash}
use a.Enclave.Tests.Vaults.{vault}
use a.Enclave.Wal.{AppState, WalEntry}
use a.Enclave.Batch.{BatchSettlementEntry}
use a.Enclave.Batch.Chunks.{BatchChunk, audits}
use a.Enclave.Batch.Hash.{settlement_entries, audit_records, compute_batch_chunk_hash}
use a.Enclave.Batch.Submit.{SolanaAccounts, submit_atomic_chunk}
use a.Enclave.Batch.Submit.Paired.{BorshLaws, sysvar_of, submit_atomic_chunk_paired}
use a.Enclave.Batch.Fire.{Batching, fire_chunks}

-- A writer in front of the bytes that follow, and its reader.
abbrev put_bytes : Bytes → Bytes → Bytes
put_bytes b rest = length b ∷ b ++ rest

abbrev get_bytes : Bytes → Option (Bytes × Bytes)
get_bytes [] = none
get_bytes (n ∷ bytes) = some (take n bytes, drop n bytes)

abbrev put_time : ℤ → Bytes → Bytes
put_time (pos n) rest = 0 ∷ n ∷ rest
put_time (negsuc n) rest = 1 ∷ n ∷ rest

abbrev get_time : Bytes → Option (ℤ × Bytes)
get_time (zero ∷ n ∷ rest) = some (pos n, rest)
get_time (suc k ∷ n ∷ rest) = some (negsuc n, rest)
get_time _ = none

abbrev put_settlement : SettlementEntry → Bytes → Bytes
put_settlement e rest = put_bytes e.provider_token_account (e.amount ∷ rest)

abbrev with_amount : Pubkey → Bytes → Option (SettlementEntry × Bytes)
with_amount account [] = none
with_amount account (n ∷ rest) =
    some (record { provider_token_account = account; amount = n }, rest)

abbrev get_settlement : Bytes → Option (SettlementEntry × Bytes)
get_settlement bytes = do (account, rest) ← get_bytes bytes; with_amount account rest

abbrev put_record : AuditRecordData → Bytes → Bytes
put_record r rest =
    put_bytes r.encrypted_sender
      (put_bytes r.encrypted_amount (put_bytes r.provider (put_time r.timestamp rest)))

abbrev get_record : Bytes → Option (AuditRecordData × Bytes)
get_record bytes = do
  (encrypted_sender, bytes1) ← get_bytes bytes
  (encrypted_amount, bytes2) ← get_bytes bytes1
  (provider, bytes3) ← get_bytes bytes2
  (timestamp, rest) ← get_time bytes3
  some (
    record {
      encrypted_sender = encrypted_sender;
      encrypted_amount = encrypted_amount;
      provider = provider;
      timestamp = timestamp;
    },
    rest,
  )

module _ {A : Type 0} (put : A → Bytes → Bytes) (get : Bytes → Option (A × Bytes))
    (get-put : (x : A) (rest : Bytes) → get (put x rest) ≡ some (x, rest)) where
  abbrev put_all : List A → Bytes
  put_all [] = []
  put_all (x ∷ xs) = put x (put_all xs)

  abbrev put_list : List A → Bytes
  put_list xs = length xs ∷ put_all xs

  abbrev get_all : ℕ → Bytes → Option (List A × Bytes)
  get_all zero bytes = some ([], bytes)
  get_all (suc n) bytes = do
    (x, bytes') ← get bytes
    (xs, rest) ← get_all n bytes'
    some (x ∷ xs, rest)

  abbrev get_list : Bytes → Option (List A × Bytes)
  get_list [] = none
  get_list (n ∷ bytes) = get_all n bytes

  get_all-put_all : (xs : List A) → get_all (length xs) (put_all xs) ≡ some (xs, [])
  get_all-put_all [] = refl
  get_all-put_all (x ∷ xs) = rw (get-put x (put_all xs), get_all-put_all xs) refl

get_settlement-put_settlement :
    (e : SettlementEntry) (rest : Bytes) → get_settlement (put_settlement e rest) ≡ some (e, rest)
get_settlement-put_settlement e rest =
    rw
      (
        take-append (length e.provider_token_account) e.provider_token_account (e.amount ∷ rest)
            refl,
        drop-append (length e.provider_token_account) e.provider_token_account (e.amount ∷ rest)
            refl,
      )
      refl

get_time-put_time : (t : ℤ) (rest : Bytes) → get_time (put_time t rest) ≡ some (t, rest)
get_time-put_time (pos n) rest = refl
get_time-put_time (negsuc n) rest = refl

get_record-put_record :
    (r : AuditRecordData) (rest : Bytes) → get_record (put_record r rest) ≡ some (r, rest)
get_record-put_record r rest =
    let bytes3 = put_time r.timestamp rest in
    let bytes2 = put_bytes r.provider bytes3 in
    let bytes1 = put_bytes r.encrypted_amount bytes2 in
    rw
      (
        take-append (length r.encrypted_sender) r.encrypted_sender (bytes1) refl,
        drop-append (length r.encrypted_sender) r.encrypted_sender (bytes1) refl,
        take-append (length r.encrypted_amount) r.encrypted_amount (bytes2) refl,
        drop-append (length r.encrypted_amount) r.encrypted_amount (bytes2) refl,
        take-append (length r.provider) r.provider (bytes3) refl,
        drop-append (length r.provider) r.provider (bytes3) refl,
        get_time-put_time r.timestamp rest,
      )
      refl

abbrev encode_settlements : List SettlementEntry → Bytes
encode_settlements l = put_list put_settlement get_settlement get_settlement-put_settlement l

abbrev encode_records : List AuditRecordData → Bytes
encode_records l = put_list put_record get_record get_record-put_record l

abbrev platform : Platform
platform = record {
  program_id = key 9;
  sha256 = toy_hash;
  find_program_address = λ seeds. (key 77, 255);
  deserialize_u64 = λ bytes. some (from_le_bytes (take 8 bytes), drop 8 bytes);
  deserialize_hash = λ bytes. some (take 32 bytes, drop 32 bytes);
  deserialize_records = λ bytes. get_list put_record get_record get_record-put_record bytes;
  deserialize_settlements =
      λ bytes. get_list put_settlement get_settlement get_settlement-put_settlement bytes;
}

borsh : BorshLaws platform encode_settlements encode_records
borsh = record {
  sha256_length = length-toy_hash;
  read_u64 = λ n rest b.
      rw
        (
          take-append 8 (le_bytes 8 n) rest (length-le_bytes 8 n),
          drop-append 8 (le_bytes 8 n) rest (length-le_bytes 8 n),
          from_le_bytes-le_bytes 8 n b,
        )
        refl;
  read_hash = λ hash rest h. rw (take-append 32 hash rest h, drop-append 32 hash rest h) refl;
  read_settlements =
      λ l. get_all-put_all put_settlement get_settlement get_settlement-put_settlement l;
  read_records = λ l. get_all-put_all put_record get_record get_record-put_record l;
}

abbrev addresses : SolanaAccounts
addresses = record {
  vault_signer_pubkey = key 1;
  vault_config = key 2;
  vault_token_account = key 3;
  instructions_sysvar = key 4;
  token_program = key 5;
  system_program = key 6;
}

abbrev chunk : BatchChunk
chunk = record {
  start_index = 0;
  entries =
      record {
        settlement_id = "s1";
        provider_id = "p";
        settlement = record { provider_token_account = key 8; amount = 5 };
        audit = record {
          encrypted_sender = key 11;
          encrypted_amount = key 12;
          provider = key 8;
          timestamp = pos 500;
        };
      }
      ∷ [];
}

abbrev settlements : List BatchSettlementEntry
settlements = record { provider_token_account = key 8; amount = 5 } ∷ []

abbrev hash : Bytes
hash = compute_batch_chunk_hash toy_hash 3 settlements (audits chunk.entries)

abbrev transaction : List Instruction
transaction =
    submit_atomic_chunk platform encode_settlements encode_records addresses 3 chunk settlements
      hash

submit_atomic_chunk_paired_example :
    (verify_record_audit_pairing platform
        (sysvar_of transaction 0)
        3
        hash
        (key 2)
        (settlement_entries settlements)
      ≡ ok tt)
    × (verify_settle_vault_pairing platform
          (sysvar_of transaction 1)
          3
          hash
          (key 2)
          (audit_records (audits chunk.entries))
        ≡ ok tt)
submit_atomic_chunk_paired_example =
    submit_atomic_chunk_paired platform encode_settlements encode_records borsh addresses 3
      settlements chunk hash (omega arith) refl

-- The node sends what it is given, and the log takes it.
abbrev batching : Batching
batching = record { vault = vault; wal = [] }

abbrev server : AppState
server = record {
  vault = vault;
  payment_id_index = [];
  processed_signatures = [];
  last_processed_signature = none;
  last_finalized_slot = 0;
  btc_ledger = record { utxos = []; spent_count = 0 };
}

abbrev parse : String → Option Bytes
parse s = none

abbrev sent : List Instruction → Option String
sent instructions = some "tx"

abbrev logged : WalEntry → Bool
logged entry = true

abbrev fired : Batching
fired =
    (fire_chunks platform encode_settlements encode_records addresses sent logged (pos 500) 3 0
      (chunk ∷ []) batching).1
