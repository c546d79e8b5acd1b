-- ===== src/Enclave/Batch/Chunks.antt =====
-- enclave/src/batch.rs: how a batch is cut into the chunks of one transaction each, and which chunks
-- are private enough to be sent.
pub mod Cut
pub mod Filter
use a.Prelude.{
  ℕ, zero, suc, ◌+◌, ◌-◌, ◌/◌, ◌%◌, Bool, true, false, ◌||◌, String, List, [], ◌∷◌, length, leb,
  ltb, u8_mod, if◌then◌else◌,
}
use a.Prelude.Int.{ℤ, leb_ℤ}
use a.Prelude.Equality.{Pubkey, bytes_eq, contains}
use a.Prelude.Outcome.{Result, ok, sub_i64}
use a.Prelude.Fallible.{◌>>=◌, index_range}
use a.Enclave.Batch.{
  PreparedSettlement, BatchAuditEntry, BatchBuildMode, auto, flush, BatchPrivacyConfig, BatchError,
  max_atomic_settlements_with_audit, max_settlement_delay_sec,
}

pub record BatchChunk : Type 0 where
  pub start_index : ℕ
  pub entries : List PreparedSettlement

-- `BatchChunk::audits`
unfoldable pub audits : List PreparedSettlement → List BatchAuditEntry
audits [] = []
audits (e ∷ entries) = e.audit ∷ audits entries

-- `for chunk_idx in 0..chunk_count`, from `chunk_idx` on with `left` rounds left.
unfoldable pub cut_chunks :
    List PreparedSettlement → ℕ → ℕ → ℕ → ℕ → ℕ → Result BatchError (List BatchChunk)
cut_chunks entries base_chunk_size extra_entries zero chunk_idx start = ok []
cut_chunks entries base_chunk_size extra_entries (suc left) chunk_idx start = do
  let end = start + (base_chunk_size + (if ltb chunk_idx extra_entries then 1 else 0))
  slice ← index_range entries start end
  chunks ← cut_chunks entries base_chunk_size extra_entries left (chunk_idx + 1) end
  ok (record { start_index = start % u8_mod; entries = slice } ∷ chunks)

unfoldable pub build_batch_chunks : List PreparedSettlement → Result BatchError (List BatchChunk)
unfolding cut_chunks
build_batch_chunks [] = ok []
build_batch_chunks (e ∷ es) =
    let entries = e ∷ es in
    let chunk_count =
      (length entries + max_atomic_settlements_with_audit - 1)
      / max_atomic_settlements_with_audit in
    cut_chunks entries (length entries / chunk_count) (length entries % chunk_count) chunk_count 0 0

-- The size of the set of the providers' accounts.
unfoldable pub providers : List PreparedSettlement → List Pubkey
providers [] = []
providers (e ∷ entries) =
    let rest = providers entries in
    elim (contains rest e.settlement.provider_token_account) [
      | true ↦ rest
      | false ↦ e.settlement.provider_token_account ∷ rest
    ]

-- `any(|entry| batch_timestamp - entry.audit.timestamp >= MAX_SETTLEMENT_DELAY_SEC)`
unfoldable pub liveness_deadline_reached : ℤ → List PreparedSettlement → Result BatchError Bool
liveness_deadline_reached batch_timestamp [] = ok false
liveness_deadline_reached batch_timestamp (e ∷ entries) = do
  age ← sub_i64 batch_timestamp e.audit.timestamp
  elim (leb_ℤ max_settlement_delay_sec age) [
    | true ↦ ok true
    | false ↦ liveness_deadline_reached batch_timestamp entries
  ]

module _ (batch_timestamp : ℤ) (min_batch_providers : ℕ) where
  -- The chunks that the closure of `filter` accepts.
  unfoldable pub filter_chunks : List BatchChunk → Result BatchError (List BatchChunk)
  unfolding providers liveness_deadline_reached
  filter_chunks [] = ok []
  filter_chunks (c ∷ chunks) = do
    late ← liveness_deadline_reached batch_timestamp c.entries
    kept ← filter_chunks chunks
    ok (elim (leb min_batch_providers (length (providers c.entries)) || late) [
      | true ↦ c ∷ kept
      | false ↦ kept
    ])

unfoldable pub privacy_filter_batch_chunks :
    List BatchChunk → ℤ → BatchBuildMode → BatchPrivacyConfig → Result BatchError (List BatchChunk)
unfolding filter_chunks
privacy_filter_batch_chunks chunks batch_timestamp flush config = ok chunks
privacy_filter_batch_chunks chunks batch_timestamp auto config =
    elim (leb config.min_batch_providers 1) [
      | true ↦ ok chunks
      | false ↦ filter_chunks batch_timestamp config.min_batch_providers chunks
    ]
