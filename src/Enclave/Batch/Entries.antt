-- ===== src/Enclave/Batch/Entries.antt =====
-- enclave/src/batch.rs: the entries of a batch on Solana and of one on other chains.
pub mod Stamped
use a.Prelude.{ℕ, ◌+◌, ◌*◌, String, Option, none, some, List, [], ◌∷◌, ◌++◌}
use a.Prelude.Int.{ℤ}
use a.Prelude.Equality.{Bytes, string_eq}
use a.Prelude.Map.{Map, lookup, values}
use a.Prelude.Outcome.{Result, ok, panic, pure, get, lift, ◌>>=◌, ◌>>◌}
use a.Prelude.Fallible.{◌>>=◌ as ◌>>=?◌}
use a.Enclave.Crypto.{Crypto}
use a.Enclave.State.{VaultState, SettlementRecord, ProviderRegistration, MultiChainProviderCredit}
use a.Enclave.Audit.{EncryptedAuditRecord, generate_audit_record_at}
use a.Enclave.Batch.{
  BatchBuildMode, BatchError, BatchPrivacyConfig, ProviderBatchCursor, PreparedSettlement,
  max_settlements_per_tx,
}
use a.Enclave.Batch.Select.{Candidate, select_provider_batch_entries}
use a.Enclave.Batch.RoundRobin.{Turn, select_batch_settlement_ids}
use a.Enclave.Batch.Prepare.{Worker, cursor_of, build_provider_batch_cursors}

-- The turns; running out of rounds would be a panic.
unfoldable pub selected_turns : List ProviderBatchCursor → Result BatchError (List Turn)
selected_turns cursors = elim (select_batch_settlement_ids cursors max_settlements_per_tx) [
  | none ↦ panic
  | some turns ↦ ok turns
]

module _ (c : Crypto) (hkdf : Bytes → Bytes → Bytes → Bytes) (draw : ℕ → c.Scalar) where
  -- An entry, with the two scalars that its encryptions draw.
  unfoldable pub prepare_entry : VaultState → ℤ → ℕ → Turn → SettlementRecord → PreparedSettlement
  prepare_entry v batch_timestamp i (provider_id, sid) r =
      let encrypted =
        generate_audit_record_at c hkdf (draw (2 * i)) (draw (2 * i + 1)) r.client r.provider
          r.amount v.auditor_epoch v.auditor_master_secret batch_timestamp in
      record {
        settlement_id = sid;
        provider_id = provider_id;
        settlement = record { provider_token_account = r.provider; amount = r.amount };
        audit = record {
          encrypted_sender = encrypted.encrypted_sender;
          encrypted_amount = encrypted.encrypted_amount;
          provider = encrypted.provider;
          timestamp = encrypted.timestamp;
        };
      }

  -- The loop over what was selected; a settlement that the history has lost is skipped.
  unfoldable pub prepare_entries : VaultState → ℤ → ℕ → List Turn → List PreparedSettlement
  unfolding prepare_entry
  prepare_entries v batch_timestamp i [] = []
  prepare_entries v batch_timestamp i ((provider_id, sid) ∷ turns) =
      let rest = prepare_entries v batch_timestamp (i + 1) turns in
      elim (lookup sid v.settlement_history) [
        | none ↦ rest
        | some r ↦ prepare_entry v batch_timestamp i (provider_id, sid) r ∷ rest
      ]

  unfoldable pub prepare_batch :
      BatchPrivacyConfig → ℤ → BatchBuildMode → Worker (List PreparedSettlement)
  unfolding selected_turns prepare_entries
  prepare_batch batch_privacy batch_timestamp mode = do
    cursors ← build_provider_batch_cursors batch_timestamp mode batch_privacy
    turns ← lift (selected_turns cursors)
    v ← get
    pure (prepare_entries v batch_timestamp 0 turns)

pub record MultiChainSettlementEntry : Type 0 where
  pub settlement_id : String
  pub provider_id : String
  pub network : String
  pub asset_id : String
  pub settlement_address : String
  pub amount : ℕ
  pub timestamp : ℤ

-- `filter_map(|sid| settlement_history.get(sid).map(..))`
unfoldable pub known_candidates : Map String SettlementRecord → List String → List Candidate
known_candidates history [] = []
known_candidates history (sid ∷ sids) =
    let rest = known_candidates history sids in
    elim (lookup sid history) [ none ↦ rest | some r ↦ (sid, r.timestamp, r.amount) ∷ rest ]

unfoldable pub multichain_cursors :
    Map String SettlementRecord
    → ℤ
    → BatchBuildMode
    → BatchPrivacyConfig
    → List MultiChainProviderCredit
    → Result BatchError (List ProviderBatchCursor)
unfolding known_candidates
multichain_cursors history batch_timestamp mode batch_privacy [] = ok []
multichain_cursors history batch_timestamp mode batch_privacy (credit ∷ credits) =
    select_provider_batch_entries batch_timestamp mode batch_privacy
      (known_candidates history credit.settlement_ids)
    >>=? λ selection.
        multichain_cursors history batch_timestamp mode batch_privacy credits >>=? λ cursors.
        ok (cursor_of credit.provider_id selection ++ cursors)

unfoldable pub multichain_entries : VaultState → List Turn → List MultiChainSettlementEntry
multichain_entries v [] = []
multichain_entries v ((provider_id, sid) ∷ turns) =
    let rest = multichain_entries v turns in
    elim (lookup sid v.settlement_history) [
      | none ↦ rest
      | some r ↦ elim (lookup provider_id v.providers) [
        | none ↦ rest
        | some provider ↦
            record {
              settlement_id = sid;
              provider_id = provider_id;
              network = provider.network;
              asset_id = provider.asset_id;
              settlement_address = provider.settlement_address;
              amount = r.amount;
              timestamp = r.timestamp;
            }
            ∷ rest
      ]
    ]

unfoldable pub prepare_multichain_batch :
    BatchPrivacyConfig → ℤ → BatchBuildMode → Worker (List MultiChainSettlementEntry)
unfolding multichain_cursors multichain_entries selected_turns
prepare_multichain_batch batch_privacy batch_timestamp mode = do
  v ← get
  cursors ← lift (
      multichain_cursors v.settlement_history batch_timestamp mode batch_privacy
        (values v.multi_chain_provider_credits))
  turns ← lift (selected_turns cursors)
  pure (multichain_entries v turns)
