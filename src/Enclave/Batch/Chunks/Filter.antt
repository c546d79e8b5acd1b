-- ===== src/Enclave/Batch/Chunks/Filter.antt =====
-- enclave/src/batch.rs: which chunks `privacy_filter_batch_chunks` lets through.
use a.Prelude.{
  ℕ, ◌≤◌, ◌<◌, ◌≡◌, refl, ◌⊎◌, inl, inr, true, false, Bool, Bool-cases, List, [], ◌∷◌, length, leb,
  arith,
}
use mathlib.Core.Path.{subst}
use a.Prelude.Int.{ℤ, ◌-ℤ◌, ◌≤ℤ◌}
use a.Prelude.Equality.{Pubkey, bytes_eq, bytes_beq_iff, contains}
use a.Prelude.Outcome.{ok, Result-cases, sub_i64}
use a.Enclave.Batch.{PreparedSettlement, BatchPrivacyConfig, auto, max_settlement_delay_sec}
use a.Enclave.Batch.Chunks.{
  BatchChunk, providers, liveness_deadline_reached, filter_chunks, privacy_filter_batch_chunks,
}

abbrev pub Among : Pubkey → List Pubkey → Type 0
Among key [] = ⊥
Among key (other ∷ keys) = (key ≡ other) ⊎ Among key keys

abbrev pub AreDistinct : List Pubkey → Type 0
AreDistinct [] = Unit
AreDistinct (key ∷ keys) = ¬ (Among key keys) × AreDistinct keys

-- An entry pays the account.
abbrev pub IsPaid : Pubkey → List PreparedSettlement → Type 0
IsPaid key [] = ⊥
IsPaid key (e ∷ entries) = (key ≡ e.settlement.provider_token_account) ⊎ IsPaid key entries

abbrev pub AreAllPaid : List Pubkey → List PreparedSettlement → Type 0
AreAllPaid [] entries = Unit
AreAllPaid (key ∷ keys) entries = IsPaid key entries × AreAllPaid keys entries

-- Every account that an entry pays is one of the keys.
abbrev pub PaysOnly : List Pubkey → List PreparedSettlement → Type 0
PaysOnly keys [] = Unit
PaysOnly keys (e ∷ entries) = Among e.settlement.provider_token_account keys × PaysOnly keys entries

-- The entries pay `k` different accounts, or fewer.
abbrev pub HasProviders : ℕ → List PreparedSettlement → Type 0
HasProviders k entries =
    (keys : List Pubkey) × AreDistinct keys × AreAllPaid keys entries × (k ≤ length keys)

abbrev pub LacksProviders : ℕ → List PreparedSettlement → Type 0
LacksProviders k entries = (keys : List Pubkey) × PaysOnly keys entries × (length keys < k)

-- The audit of an entry is at least as old as the maximal delay at the time `at`.
abbrev pub IsLate : ℤ → List PreparedSettlement → Type 0
IsLate at [] = ⊥
IsLate at (e ∷ entries) = (max_settlement_delay_sec ≤ℤ at -ℤ e.audit.timestamp) ⊎ IsLate at entries

-- The second list is the chunks of the first with enough providers or a late entry, in order.
abbrev pub ArePrivate : ℤ → ℕ → List BatchChunk → List BatchChunk → Type 0
ArePrivate at k [] planned = planned ≡ []
ArePrivate at k (c ∷ chunks) planned =
    ((rest : List BatchChunk) × (planned ≡ c ∷ rest)
      × (HasProviders k c.entries ⊎ IsLate at c.entries)
      × ArePrivate at k chunks rest)
    ⊎ (LacksProviders k c.entries × ¬ (IsLate at c.entries) × ArePrivate at k chunks planned)

-- Membership in the code's set.
Among-contains : (key : Pubkey) (keys : List Pubkey) → contains keys key ≡ true → Among key keys
unfolding contains
Among-contains key [] h = cc
Among-contains key (other ∷ keys) h =
    ground (arith, bytes_beq_iff key other, bytes_beq_iff other key, Among-contains key keys)

contains-Among : (key : Pubkey) (keys : List Pubkey) → Among key keys → contains keys key ≡ true
unfolding contains
contains-Among key [] h = absurd h
contains-Among key (other ∷ keys) (inl e) =
    ground (arith, bytes_beq_iff key other, bytes_beq_iff other key)
contains-Among key (other ∷ keys) (inr h) = ground (arith, contains-Among key keys h)

PaysOnly-weaken :
    (key : Pubkey) (keys : List Pubkey) (entries : List PreparedSettlement)
    → PaysOnly keys entries
    → PaysOnly (key ∷ keys) entries
PaysOnly-weaken key keys [] h = tt
PaysOnly-weaken key keys (e ∷ entries) h = (inr h.0, PaysOnly-weaken key keys entries h.1)

AreAllPaid-weaken :
    (keys : List Pubkey) (e : PreparedSettlement) (entries : List PreparedSettlement)
    → AreAllPaid keys entries
    → AreAllPaid keys (e ∷ entries)
AreAllPaid-weaken [] e entries h = tt
AreAllPaid-weaken (key ∷ keys) e entries h = (inr h.0, AreAllPaid-weaken keys e entries h.1)

-- The keys are the accounts that are paid, each once.
abbrev AreKeys : List PreparedSettlement → List Pubkey → Type 0
AreKeys entries keys = AreDistinct keys × AreAllPaid keys entries × PaysOnly keys entries

providers-AreKeys : (entries : List PreparedSettlement) → AreKeys entries (providers entries)
unfolding providers
providers-AreKeys [] = (tt, tt, tt)
providers-AreKeys (e ∷ entries) =
    let rest = providers entries in
    let key = e.settlement.provider_token_account in
    let known = providers-AreKeys entries in
    elim (Bool-cases (contains rest key)) [
      | inl old ↦
          let same : rest ≡ providers (e ∷ entries) = rw (old, providers) refl in
          subst (AreKeys (e ∷ entries)) same (
            known.0,
            AreAllPaid-weaken rest e entries known.1,
            (Among-contains key rest old, known.2),
          )
      | inr new ↦
          let same : key ∷ rest ≡ providers (e ∷ entries) = rw (new, providers) refl in
          subst (AreKeys (e ∷ entries)) same (
            ((λ there. differ (contains-Among key rest there) new), known.0),
            (inl refl, AreAllPaid-weaken rest e entries known.1),
            (inl refl, PaysOnly-weaken key rest entries known.2),
          )
    ]
  where
    differ : {b : Bool} → b ≡ true → b ≡ false → ⊥
    differ h k = cc

liveness_deadline_reached-IsLate :
    (at : ℤ) (entries : List PreparedSettlement)
    → liveness_deadline_reached at entries ≡ ok true
    → IsLate at entries
unfolding liveness_deadline_reached sub_i64
liveness_deadline_reached-IsLate at [] h = ground arith
liveness_deadline_reached-IsLate at (e ∷ entries) h =
    ground (arith, liveness_deadline_reached-IsLate at entries)

not-IsLate :
    (at : ℤ) (entries : List PreparedSettlement)
    → liveness_deadline_reached at entries ≡ ok false
    → ¬ (IsLate at entries)
unfolding liveness_deadline_reached sub_i64
not-IsLate at [] h = λ late. absurd late
not-IsLate at (e ∷ entries) h = ground (arith, not-IsLate at entries)

filter_chunks-ArePrivate :
    (at : ℤ) (k : ℕ) (chunks planned : List BatchChunk)
    → filter_chunks at k chunks ≡ ok planned
    → ArePrivate at k chunks planned
unfolding filter_chunks
filter_chunks-ArePrivate at k [] planned h = ground arith
filter_chunks-ArePrivate at k (c ∷ chunks) planned h =
    let known = providers-AreKeys c.entries in
    elim (Result-cases (liveness_deadline_reached at c.entries)) [
      | inr other ↦ absurd (ground arith)
      | inl (late, e) ↦ elim (Result-cases (filter_chunks at k chunks)) [
        | inr other ↦ absurd (ground arith)
        | inl (kept, f) ↦
            let rest = filter_chunks-ArePrivate at k chunks kept f in
            elim (Bool-cases (leb k (length (providers c.entries)))) [
              | inl many ↦ inl (
                kept,
                ground arith,
                inl (providers c.entries, known.0, known.1, ground arith),
                rest,
              )
              | inr few ↦ elim (Bool-cases late) [
                | inl old ↦ inl (
                  kept,
                  ground arith,
                  inr (liveness_deadline_reached-IsLate at c.entries (ground arith)),
                  rest,
                )
                | inr new ↦
                    let same : planned ≡ kept = ground arith in
                    inr (
                      (providers c.entries, known.2, ground arith),
                      not-IsLate at c.entries (ground arith),
                      rw same rest,
                    )
              ]
            ]
      ]
    ]

-- Statement
pub privacy_filter-ArePrivate :
    (chunks planned : List BatchChunk) (batch_timestamp : ℤ) (config : BatchPrivacyConfig)
    → 1 < config.min_batch_providers
    → privacy_filter_batch_chunks chunks batch_timestamp auto config ≡ ok planned
    → ArePrivate batch_timestamp config.min_batch_providers chunks planned
unfolding privacy_filter_batch_chunks
privacy_filter-ArePrivate chunks planned batch_timestamp config many h =
    filter_chunks-ArePrivate batch_timestamp config.min_batch_providers chunks planned
      (ground arith)
