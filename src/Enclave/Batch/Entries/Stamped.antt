-- ===== src/Enclave/Batch/Entries/Stamped.antt =====
-- enclave/src/batch.rs: the entries of `prepare_batch` against the history of the vault.
use a.Prelude.{
  ℕ, ◌+◌, ◌≤◌, ◌≡◌, refl, some, List, [], ◌∷◌, length, arith, inl, inr, Option-cases, length-take,
}
use a.Prelude.Int.{ℤ}
use a.Prelude.Equality.{Bytes, string_eq}
use a.Prelude.Map.{lookup}
use a.Prelude.Outcome.{ok, Result-cases}
use a.Prelude.Sort.{sort_by}
use a.Enclave.Crypto.{Crypto}
use a.Enclave.State.{VaultState, SettlementRecord}
use a.Enclave.Audit.{generate_audit_record_at}
use a.Enclave.Batch.{
  BatchBuildMode, BatchPrivacyConfig, ProviderBatchCursor, PreparedSettlement,
  max_settlements_per_tx,
}
use a.Enclave.Batch.RoundRobin.{Turn, older_first, retain_nonempty}
use a.Enclave.Batch.RoundRobin.Turns.{select_batch_settlement_ids-turns}
use a.Enclave.Batch.RoundRobin.Queues.{queues, turns}
use a.Enclave.Batch.Prepare.{build_provider_batch_cursors}
use a.Enclave.Batch.Entries.{selected_turns, prepare_entry, prepare_entries, prepare_batch}

-- Every audit carries the time `at`.
abbrev pub AreStamped : ℤ → List PreparedSettlement → Type 0
AreStamped at [] = Unit
AreStamped at (e ∷ entries) = (e.audit.timestamp ≡ at) × AreStamped at entries

-- The entry pays what the vault's history holds for its settlement.
abbrev pub IsRecorded : VaultState → PreparedSettlement → Type 0
IsRecorded v e =
    (r : SettlementRecord) × (lookup e.settlement_id v.settlement_history ≡ some r)
    × (e.settlement.amount ≡ r.amount)
    × (e.settlement.provider_token_account ≡ r.provider)

abbrev pub AreRecorded : VaultState → List PreparedSettlement → Type 0
AreRecorded v [] = Unit
AreRecorded v (e ∷ entries) = IsRecorded v e × AreRecorded v entries

selected_turns-bound :
    (cursors : List ProviderBatchCursor) (ts : List Turn)
    → selected_turns cursors ≡ ok ts
    → length ts ≤ max_settlements_per_tx
unfolding selected_turns
selected_turns-bound cursors ts h =
    let queued = queues (sort_by older_first (retain_nonempty cursors)) in
    ground (
      arith,
      select_batch_settlement_ids-turns cursors max_settlements_per_tx,
      length-take max_settlements_per_tx (turns max_settlements_per_tx queued),
    )

module _ (c : Crypto) (hkdf : Bytes → Bytes → Bytes → Bytes) (draw : ℕ → c.Scalar) where
  abbrev pub IsBatch : ℤ → VaultState → List PreparedSettlement → Type 0
  IsBatch at v entries =
      (length entries ≤ max_settlements_per_tx) × AreStamped at entries × AreRecorded v entries

  prepare_entries-IsBatch :
      (v : VaultState) (at : ℤ) (i : ℕ) (ts : List Turn)
      → (length (prepare_entries c hkdf draw v at i ts) ≤ length ts)
        × AreStamped at (prepare_entries c hkdf draw v at i ts)
        × AreRecorded v (prepare_entries c hkdf draw v at i ts)
  unfolding prepare_entries prepare_entry generate_audit_record_at
  prepare_entries-IsBatch v at i [] = (omega arith, tt, tt)
  prepare_entries-IsBatch v at i (turn ∷ ts) =
      let rest = prepare_entries-IsBatch v at (i + 1) ts in
      elim (Option-cases (lookup turn.1 v.settlement_history)) [
        | inl e ↦ rw (e, prepare_entries) (omega (arith, rest.0), rest.1, rest.2)
        | inr (r, e) ↦
            rw (e, prepare_entries)
              (omega (arith, rest.0), (refl, rest.1), ((r, e, refl, refl), rest.2))
      ]

  -- A prepared batch has at most twenty entries; each pays the account and the amount that the
  -- history of the vault it leaves holds for its settlement, and its audit carries the time of the
  -- batch.
  pub prepare_batch-IsBatch :
      (batch_privacy : BatchPrivacyConfig) (batch_timestamp : ℤ) (mode : BatchBuildMode)
      (v v' : VaultState) (entries : List PreparedSettlement)
      → prepare_batch c hkdf draw batch_privacy batch_timestamp mode v ≡ (ok entries, v')
      → IsBatch batch_timestamp v' entries
  unfolding prepare_batch
  prepare_batch-IsBatch batch_privacy batch_timestamp mode v v' entries h =
      let run = build_provider_batch_cursors batch_timestamp mode batch_privacy v in
      elim (Result-cases run.0) [
        | inl (cursors, e) ↦ elim (Result-cases (selected_turns cursors)) [
          | inl (ts, f) ↦ ground (
            arith,
            selected_turns-bound cursors ts f,
            prepare_entries-IsBatch run.1 batch_timestamp 0 ts,
          )
          | inr f ↦ ground arith
        ]
        | inr e ↦ ground arith
      ]
