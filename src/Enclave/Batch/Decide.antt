-- ===== src/Enclave/Batch/Decide.antt =====
-- enclave/src/batch.rs: what the decision of `decide_batch_action` says.
use a.Prelude.{ℕ, ◌≤◌, ◌<◌, ◌≡◌, ◌⊎◌, Option, none, some, true, unwrap_or, arith}
use a.Prelude.Int.{ℤ, ◌+ℤ◌, ◌≤ℤ◌, ltb_ℤ}
use a.Prelude.Outcome.{ok, add_i64}
use a.Enclave.Batch.{
  wait, fire, decide_batch_action, decide_with_providers, await_jitter, max_settlement_delay_sec,
  max_settlements_per_tx,
}

-- Reasons for which a batch may be built.
abbrev pub IsDue : ℤ → ℤ → ℕ → ℤ → Type 0
IsDue elapsed batch_window_sec provider_count oldest_credit_age =
    (batch_window_sec ≤ℤ elapsed)
    ⊎ (max_settlements_per_tx ≤ provider_count)
    ⊎ (max_settlement_delay_sec ≤ℤ oldest_credit_age)

-- Due, with enough providers or too long a delay.
abbrev pub MayFire : ℤ → ℤ → ℕ → ℤ → ℕ → Type 0
MayFire elapsed batch_window_sec provider_count oldest_credit_age min_batch_providers =
    (0 < provider_count)
    × IsDue elapsed batch_window_sec provider_count oldest_credit_age
    × ((min_batch_providers ≤ provider_count) ⊎ (max_settlement_delay_sec ≤ℤ oldest_credit_age))

-- The loop fires a batch only if some provider has a credit, the batch is due by its window, its
-- size or the age of the oldest credit, and there are enough providers or the oldest credit has
-- waited for the maximal delay.
pub decide_batch_action-MayFire :
    (now elapsed batch_window_sec : ℤ) (provider_count : ℕ) (oldest_credit_age : ℤ)
    (jitter_deadline : Option ℤ) (sampled_jitter_sec : ℤ) (min_batch_providers : ℕ)
    (next : Option ℤ)
    → decide_batch_action now elapsed batch_window_sec provider_count oldest_credit_age
        jitter_deadline sampled_jitter_sec min_batch_providers
      ≡ ok (fire, next)
    → MayFire elapsed batch_window_sec provider_count oldest_credit_age min_batch_providers
unfolding decide_batch_action decide_with_providers await_jitter add_i64
decide_batch_action-MayFire now elapsed batch_window_sec provider_count oldest_credit_age none
      sampled_jitter_sec min_batch_providers next h =
    ground arith
decide_batch_action-MayFire now elapsed batch_window_sec provider_count oldest_credit_age
      (some deadline) sampled_jitter_sec min_batch_providers next h =
    ground arith

pub decide_batch_action-eq_fire :
    (now elapsed batch_window_sec : ℤ) (provider_count : ℕ) (oldest_credit_age : ℤ)
    (jitter_deadline : Option ℤ) (sampled_jitter_sec : ℤ) (min_batch_providers : ℕ)
    → 0 < provider_count
    → max_settlement_delay_sec ≤ℤ oldest_credit_age
    → decide_batch_action now elapsed batch_window_sec provider_count oldest_credit_age
        jitter_deadline sampled_jitter_sec min_batch_providers
      ≡ ok (fire, none)
unfolding decide_batch_action decide_with_providers await_jitter add_i64
decide_batch_action-eq_fire now elapsed batch_window_sec provider_count oldest_credit_age
      jitter_deadline sampled_jitter_sec min_batch_providers p d =
    ground arith

-- The deadline of a wait is the one kept, or a fresh one.
pub decide_batch_action-Waits :
    (now elapsed batch_window_sec : ℤ) (provider_count : ℕ) (oldest_credit_age : ℤ)
    (jitter_deadline : Option ℤ) (sampled_jitter_sec : ℤ) (min_batch_providers : ℕ)
    (next : Option ℤ)
    → decide_batch_action now elapsed batch_window_sec provider_count oldest_credit_age
        jitter_deadline sampled_jitter_sec min_batch_providers
      ≡ ok (wait, next)
    → (next ≡ some (unwrap_or jitter_deadline (now +ℤ sampled_jitter_sec)))
      × (ltb_ℤ now (unwrap_or jitter_deadline (now +ℤ sampled_jitter_sec)) ≡ true)
unfolding decide_batch_action decide_with_providers await_jitter add_i64
decide_batch_action-Waits now elapsed batch_window_sec provider_count oldest_credit_age none
      sampled_jitter_sec min_batch_providers next h =
    ground arith
decide_batch_action-Waits now elapsed batch_window_sec provider_count oldest_credit_age
      (some deadline) sampled_jitter_sec min_batch_providers next h =
    ground arith
