-- ===== src/Enclave/Batch/Select.antt =====
-- enclave/src/batch.rs: `select_provider_batch_entries`, what one provider gives to a batch. The loop
-- over the candidates carries the three mutable variables of the code.
pub mod Laws
use a.Prelude.{
  unwrap_or, ℕ, String, Bool, true, false, not, ◌||◌, Option, none, some, List, [], ◌∷◌, ◌++◌, leb,
}
use a.Prelude.Int.{ℤ, leb_ℤ, min_ℤ}
use a.Prelude.Equality.{◌==◌, nat_eq}
use a.Prelude.Outcome.{Result, ok, sub_i64, saturating_add}
use a.Prelude.Fallible.{◌>>=◌}
use a.Enclave.Batch.{
  BatchBuildMode, auto, flush, BatchError, BatchPrivacyConfig, max_settlement_delay_sec,
}

pub record ProviderBatchSelection : Type 0 where
  pub settlement_ids : List String
  pub oldest_timestamp : ℤ

-- A candidate: its settlement id, timestamp and amount.
abbrev pub Candidate : Type 0
Candidate = String × ℤ × ℕ

pub record Eligible : Type 0 where
  pub eligible_ids : List String
  pub eligible_amount : ℕ
  pub eligible_oldest_timestamp : Option ℤ

abbrev pub settlement_is_age_eligible : ℤ → BatchPrivacyConfig → Bool
settlement_is_age_eligible age config =
    leb_ℤ max_settlement_delay_sec age || leb_ℤ config.min_anonymity_window_sec age

-- `match mode { Flush => true, Auto => .. }`
abbrev pub is_eligible : BatchBuildMode → ℤ → BatchPrivacyConfig → Bool
is_eligible flush age config = true
is_eligible auto age config = settlement_is_age_eligible age config

unfoldable pub provider_payout_floor_satisfied : ℕ → ℤ → BatchPrivacyConfig → Bool
provider_payout_floor_satisfied eligible_amount eligible_oldest_age config =
    elim (eligible_amount == 0) [
      | true ↦ false
      | false ↦
          leb_ℤ max_settlement_delay_sec eligible_oldest_age
          || (config.auto_batch_min_provider_payout_atomic == 0
              || leb config.auto_batch_min_provider_payout_atomic eligible_amount)
    ]

-- `map(|current| current.min(timestamp)).unwrap_or(timestamp)`
abbrev pub older : Option ℤ → ℤ → ℤ
older none timestamp = timestamp
older (some current) timestamp = min_ℤ current timestamp

abbrev pub add_eligible : Candidate → Eligible → Eligible
add_eligible (sid, timestamp, amount) acc = record {
  eligible_ids = acc.eligible_ids ++ sid ∷ [];
  eligible_amount = saturating_add acc.eligible_amount amount;
  eligible_oldest_timestamp = some (older acc.eligible_oldest_timestamp timestamp);
}

abbrev pub no_eligible : Eligible
no_eligible = record { eligible_ids = []; eligible_amount = 0; eligible_oldest_timestamp = none }

module _ (batch_timestamp : ℤ) (mode : BatchBuildMode) (config : BatchPrivacyConfig) where
  unfoldable pub select_eligible : List Candidate → Eligible → Result BatchError Eligible
  select_eligible [] acc = ok acc
  select_eligible ((sid, timestamp, amount) ∷ candidates) acc = do
    age ← sub_i64 batch_timestamp timestamp
    elim (is_eligible mode age config) [
      | true ↦ select_eligible candidates (add_eligible (sid, timestamp, amount) acc)
      | false ↦ select_eligible candidates acc
    ]

  -- `matches!(mode, Auto) && !provider_payout_floor_satisfied(..)`
  unfoldable pub defers : BatchBuildMode → Eligible → ℤ → Bool
  unfolding provider_payout_floor_satisfied
  defers flush acc eligible_oldest_age = false
  defers auto acc eligible_oldest_age =
      not (provider_payout_floor_satisfied acc.eligible_amount eligible_oldest_age config)

  -- What follows the loop.
  unfoldable pub finish_selection : Eligible → Result BatchError (Option ProviderBatchSelection)
  unfolding defers
  finish_selection acc = elim acc.eligible_ids [
    | [] ↦ ok none
    | sid ∷ sids ↦ do
      let oldest_timestamp = unwrap_or acc.eligible_oldest_timestamp batch_timestamp
      eligible_oldest_age ← sub_i64 batch_timestamp oldest_timestamp
      ok (elim (defers mode acc eligible_oldest_age) [
        | true ↦ none
        | false ↦
            some (record { settlement_ids = acc.eligible_ids; oldest_timestamp = oldest_timestamp })
      ])
  ]

  unfoldable pub select_provider_batch_entries :
      List Candidate → Result BatchError (Option ProviderBatchSelection)
  unfolding select_eligible finish_selection
  select_provider_batch_entries candidates = do
    acc ← select_eligible candidates no_eligible
    finish_selection acc
