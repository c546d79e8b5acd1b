-- ===== src/Enclave/Batch.antt =====
-- enclave/src/batch.rs: the data of the batch worker, and when its loop fires a batch.
pub mod Decide
pub mod Select
pub mod Hash
pub mod Submit
pub mod Fire
pub mod Aggregate
pub mod Entries
pub mod Prepare
pub mod Chunks
pub mod RoundRobin
use a.Prelude.{
  unwrap_or, ℕ, String, Bool, true, false, not, ◌&&◌, ◌||◌, Option, none, some, List, leb, ltb,
}
use a.Prelude.Int.{ℤ, pos, leb_ℤ, ltb_ℤ}
use a.Prelude.Equality.{Bytes, Pubkey, ◌==◌, nat_eq}
use a.Prelude.Outcome.{Result, ok, add_i64}
use a.Prelude.Fallible.{◌>>=◌}

abbrev pub default_batch_window_sec : ℤ
default_batch_window_sec = pos 120

abbrev pub max_settlement_delay_sec : ℤ
max_settlement_delay_sec = pos 900

abbrev pub max_settlements_per_tx : ℕ
max_settlements_per_tx = 20

abbrev pub max_atomic_settlements_with_audit : ℕ
max_atomic_settlements_with_audit = 2

abbrev pub default_auto_batch_min_provider_payout_atomic : ℕ
default_auto_batch_min_provider_payout_atomic = 1000000

abbrev pub default_min_anonymity_window_sec : ℤ
default_min_anonymity_window_sec = pos 300

abbrev pub default_min_batch_providers : ℕ
default_min_batch_providers = 2

pub record BatchSettlementEntry : Type 0 where
  pub provider_token_account : Pubkey
  pub amount : ℕ

pub record BatchAuditEntry : Type 0 where
  pub encrypted_sender : Bytes
  pub encrypted_amount : Bytes
  pub provider : Pubkey
  pub timestamp : ℤ

pub record PreparedSettlement : Type 0 where
  pub settlement_id : String
  pub provider_id : String
  pub settlement : BatchSettlementEntry
  pub audit : BatchAuditEntry

pub record ProviderBatchCursor : Type 0 where
  pub provider_id : String
  pub oldest_credit_at : ℤ
  pub settlement_ids : List String
  pub next_index : ℕ

pub record BatchPrivacyConfig : Type 0 where
  pub batch_window_sec : ℤ
  pub auto_batch_min_provider_payout_atomic : ℕ
  pub min_anonymity_window_sec : ℤ
  pub min_batch_providers : ℕ

-- `BatchPrivacyConfig::default`
abbrev pub default_config : BatchPrivacyConfig
default_config = record {
  batch_window_sec = default_batch_window_sec;
  auto_batch_min_provider_payout_atomic = default_auto_batch_min_provider_payout_atomic;
  min_anonymity_window_sec = default_min_anonymity_window_sec;
  min_batch_providers = default_min_batch_providers;
}

pub data BatchBuildMode : Type 0 where
  auto flush : BatchBuildMode

pub data BatchLoopDecision : Type 0 where
  skip wait fire : BatchLoopDecision

-- The worker's errors; each is a message in the code.
pub data BatchError : Type 0 where
  aggregated_amount_overflow : Pubkey → BatchError
  chunk_submission_failed : ℕ → BatchError
  multichain_submission_failed wal_append_failed : BatchError

-- `jitter_deadline.or(Some(now + sampled_jitter_sec))`, and the wait for it.
unfoldable pub await_jitter : ℤ → Option ℤ → ℤ → Result BatchError (BatchLoopDecision × Option ℤ)
await_jitter now jitter_deadline sampled_jitter_sec = do
  fresh ← add_i64 now sampled_jitter_sec
  let deadline = unwrap_or jitter_deadline fresh
  ok (elim (ltb_ℤ now deadline) [ true ↦ (wait, some deadline) | false ↦ (fire, none) ])

-- `decide_batch_action` past its first test: some provider has a credit.
unfoldable pub decide_with_providers :
    ℤ → ℤ → ℤ → ℕ → ℤ → Option ℤ → ℤ → ℕ → Result BatchError (BatchLoopDecision × Option ℤ)
unfolding await_jitter
decide_with_providers now elapsed batch_window_sec provider_count oldest_credit_age jitter_deadline
      sampled_jitter_sec min_batch_providers =
    let deadline_reached = leb_ℤ max_settlement_delay_sec oldest_credit_age in
    let should_batch =
      leb_ℤ batch_window_sec elapsed
      || (leb max_settlements_per_tx provider_count || deadline_reached) in
    elim (not should_batch || (ltb provider_count min_batch_providers && not deadline_reached)) [
      | true ↦ ok (skip, none)
      | false ↦ elim deadline_reached [
        | true ↦ ok (fire, none)
        | false ↦ await_jitter now jitter_deadline sampled_jitter_sec
      ]
    ]

unfoldable pub decide_batch_action :
    ℤ → ℤ → ℤ → ℕ → ℤ → Option ℤ → ℤ → ℕ → Result BatchError (BatchLoopDecision × Option ℤ)
unfolding decide_with_providers
decide_batch_action now elapsed batch_window_sec provider_count oldest_credit_age jitter_deadline
      sampled_jitter_sec min_batch_providers =
    elim (provider_count == 0) [
      | true ↦ ok (skip, none)
      | false ↦
          decide_with_providers now elapsed batch_window_sec provider_count oldest_credit_age
            jitter_deadline sampled_jitter_sec min_batch_providers
    ]
