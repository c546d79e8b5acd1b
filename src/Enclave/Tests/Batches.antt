-- ===== src/Enclave/Tests/Batches.antt =====
-- The batch worker on two providers with a settlement each.
use a.Prelude.{String, ℕ, ◌≡◌, refl, true, some, none, List, [], ◌∷◌, length}
use a.Prelude.Int.{ℤ, pos, ◌+ℤ◌, ◌-ℤ◌}
use a.Prelude.Codec.{as_bytes}
use a.Prelude.Equality.{bytes_beq, Bytes, Pubkey, bytes_eq, nat_eq, string_eq}
use a.Prelude.Map.{lookup, values}
use a.Prelude.Sort.{leb_bytes, sort_by}
use a.Prelude.Outcome.{ok, sub_i64, add_i64, checked_add}
use a.Enclave.State.{ProviderCredit, SettlementRecord, VaultState}
use a.Enclave.Batch.{
  auto, BatchPrivacyConfig, BatchSettlementEntry, PreparedSettlement, ProviderBatchCursor,
  decide_batch_action, decide_with_providers, await_jitter,
}
use a.Enclave.Batch.Decide.{MayFire, decide_batch_action-MayFire}
use a.Enclave.Batch.Select.{
  Candidate, ProviderBatchSelection, select_eligible, finish_selection, defers,
  provider_payout_floor_satisfied, select_provider_batch_entries,
}
use a.Enclave.Batch.Select.Laws.{Selects, select_provider_batch_entries-Selects}
use a.Enclave.Batch.RoundRobin.{retain_nonempty, run_round, run_rounds, select_batch_settlement_ids}
use a.Enclave.Batch.RoundRobin.Turns.{select_batch_settlement_ids-turns}
use a.Enclave.Batch.Chunks.{BatchChunk, build_batch_chunks}
use a.Enclave.Batch.Chunks.Cut.{flatten, AreChunks, build_batch_chunks-AreChunks}
use a.Enclave.Batch.Aggregate.{
  add_payment, aggregate_from, aggregate_settlements, IsAscending, paid_to,
  aggregate_settlements-Pays,
}
use a.Enclave.Batch.Prepare.{
  find_record, load_candidates, load_cursors, prune_all, build_provider_batch_cursors,
}
use a.Enclave.Batch.Entries.{selected_turns, prepare_entries, prepare_batch}
use a.Enclave.Batch.Entries.Stamped.{IsBatch, prepare_batch-IsBatch}
use a.Program.Tests.Toy.{key}
use a.Enclave.Tests.Toy.{toy}
use a.Enclave.Tests.Vaults.{client, vault}

abbrev config : BatchPrivacyConfig
config = record {
  batch_window_sec = pos 120;
  auto_batch_min_provider_payout_atomic = 4;
  min_anonymity_window_sec = pos 300;
  min_batch_providers = 2;
}

decide_batch_action-MayFire_example : MayFire (pos 130) (pos 120) 2 (pos 300) 2
unfolding decide_batch_action decide_with_providers await_jitter add_i64 ◌+ℤ◌
decide_batch_action-MayFire_example =
    decide_batch_action-MayFire (pos 1000) (pos 130) (pos 120) 2 (pos 300) (some (pos 999)) (pos 7)
      2 none refl

abbrev candidates : List Candidate
candidates = ("s1", pos 100, 5) ∷ ("s2", pos 900, 7) ∷ ("s3", pos 50, 1) ∷ []

abbrev selection : ProviderBatchSelection
selection = record { settlement_ids = "s1" ∷ "s3" ∷ []; oldest_timestamp = pos 50 }

select_provider_batch_entries-Selects_example : Selects (pos 500) auto config candidates selection
unfolding select_provider_batch_entries select_eligible finish_selection defers
    provider_payout_floor_satisfied sub_i64 ◌-ℤ◌
select_provider_batch_entries-Selects_example =
    select_provider_batch_entries-Selects (pos 500) auto config candidates selection refl

abbrev cursor : String → ℤ → List String → ProviderBatchCursor
cursor provider_id oldest ids = record {
  provider_id = provider_id;
  oldest_credit_at = oldest;
  settlement_ids = ids;
  next_index = 0;
}

abbrev cursors : List ProviderBatchCursor
cursors =
    cursor "p" (pos 80) ("s4" ∷ "s5" ∷ []) ∷ cursor "q" (pos 50) ("s1" ∷ "s2" ∷ "s3" ∷ []) ∷ []

select_batch_settlement_ids-turns_example :
    select_batch_settlement_ids cursors 4
    ≡ some (("q", "s1") ∷ ("p", "s4") ∷ ("q", "s2") ∷ ("p", "s5") ∷ [])
unfolding sort_by leb_bytes retain_nonempty
select_batch_settlement_ids-turns_example = select_batch_settlement_ids-turns cursors 4

abbrev prepared : String → Pubkey → ℕ → PreparedSettlement
prepared sid account amount = record {
  settlement_id = sid;
  provider_id = "p";
  settlement = record { provider_token_account = account; amount = amount };
  audit = record {
    encrypted_sender = key 1;
    encrypted_amount = key 2;
    provider = account;
    timestamp = pos 500;
  };
}

abbrev three : List PreparedSettlement
three = prepared "s1" (key 8) 5 ∷ prepared "s2" (key 3) 7 ∷ prepared "s3" (key 8) 2 ∷ []

build_batch_chunks-AreChunks_example :
    (chunks : List BatchChunk) × (build_batch_chunks three ≡ ok chunks)
    × (flatten chunks ≡ three)
    × AreChunks 0 chunks
    × (length chunks ≡ 2)
build_batch_chunks-AreChunks_example = build_batch_chunks-AreChunks three

abbrev payments : List BatchSettlementEntry
payments =
    record { provider_token_account = key 3; amount = 7 }
    ∷ record { provider_token_account = key 8; amount = 7 }
    ∷ []

aggregated : aggregate_settlements three ≡ ok payments
unfolding aggregate_settlements aggregate_from add_payment checked_add leb_bytes bytes_beq
aggregated = refl

aggregate_settlements-Pays_example : IsAscending payments × (paid_to (key 8) payments ≡ 7)
unfolding bytes_beq
aggregate_settlements-Pays_example = aggregate_settlements-Pays three payments (key 8) aggregated

-- Two providers are owed a settlement each.
abbrev credit : String → Pubkey → ℕ → String → ProviderCredit
credit provider_id account amount sid = record {
  provider_id = provider_id;
  settlement_token_account = account;
  credited_amount = amount;
  oldest_credit_at = pos 100;
  settlement_ids = sid ∷ [];
}

abbrev settlement : String → Pubkey → ℕ → SettlementRecord
settlement sid account amount = record {
  settlement_id = sid;
  client = client;
  provider = account;
  amount = amount;
  timestamp = pos 100;
}

abbrev owing : VaultState
owing = record vault {
  provider_credits = ("p", credit "p" (key 3) 5 "s1") ∷ ("q", credit "q" (key 8) 7 "s2") ∷ [];
  settlement_history = ("s1", settlement "s1" (key 3) 5) ∷ ("s2", settlement "s2" (key 8) 7) ∷ [];
}

abbrev kdf : Bytes → Bytes → Bytes → Bytes
kdf salt secret info = secret

abbrev draw : ℕ → toy.Scalar
draw i = true

abbrev entries : List PreparedSettlement
entries = prepare_entries toy kdf draw owing (pos 500) 0 (("p", "s1") ∷ ("q", "s2") ∷ [])

prepared_two : prepare_batch toy kdf draw config (pos 500) auto owing ≡ (ok entries, owing)
unfolding prepare_batch build_provider_batch_cursors load_cursors load_candidates find_record
    prune_all select_provider_batch_entries select_eligible finish_selection defers
    provider_payout_floor_satisfied sub_i64 ◌-ℤ◌ selected_turns select_batch_settlement_ids
    run_rounds run_round retain_nonempty sort_by leb_bytes lookup values as_bytes
prepared_two = refl

prepare_batch-IsBatch_example : IsBatch toy kdf draw (pos 500) owing entries
prepare_batch-IsBatch_example =
    prepare_batch-IsBatch toy kdf draw config (pos 500) auto owing owing entries prepared_two

abbrev planned : List BatchChunk
planned = record { start_index = 0; entries = entries } ∷ []
