-- ===== src/Enclave/Batch/Select/Laws.antt =====
-- enclave/src/batch.rs: what `select_provider_batch_entries` takes, against a filter of the candidates.
use a.Prelude.{
  ℕ, ◌+◌, ◌≤◌, ◌≡◌, ◌≢◌, refl, ◌⊎◌, Bool-cases, inl, inr, String, true, false, Option, Option-cases,
  unwrap_or, none, some, List, [], ◌∷◌, ◌++◌, arith,
}
use mathlib.Core.List.{append-nil, append_assoc}
use a.Prelude.Int.{ℤ, min_ℤ, ◌-ℤ◌, ◌≤ℤ◌}
use a.Prelude.Outcome.{ok, Result-cases, sub_i64}
use a.Enclave.Batch.{BatchBuildMode, flush, BatchPrivacyConfig, max_settlement_delay_sec}
use a.Enclave.Batch.Select.{
  Candidate, Eligible, ProviderBatchSelection, is_eligible, add_eligible, no_eligible,
  select_eligible, finish_selection, defers, provider_payout_floor_satisfied,
  select_provider_batch_entries,
}

abbrev pub ids : List Candidate → List String
ids [] = []
ids ((sid, timestamp, amount) ∷ cs) = sid ∷ ids cs

abbrev pub total : List Candidate → ℕ
total [] = 0
total ((sid, timestamp, amount) ∷ cs) = amount + total cs

-- No candidate of the list is older.
abbrev pub IsBound : ℤ → List Candidate → Type 0
IsBound oldest [] = Unit
IsBound oldest ((sid, timestamp, amount) ∷ cs) = (oldest ≤ℤ timestamp) × IsBound oldest cs

-- It is the timestamp of a candidate of the list.
abbrev pub IsTimeOf : ℤ → List Candidate → Type 0
IsTimeOf z [] = ⊥
IsTimeOf z ((sid, timestamp, amount) ∷ cs) = (z ≡ timestamp) ⊎ IsTimeOf z cs

abbrev pub IsOldest : ℤ → List Candidate → Type 0
IsOldest z cs = IsBound z cs × IsTimeOf z cs

abbrev add_all : Eligible → List Candidate → Eligible
add_all acc [] = acc
add_all acc (c ∷ cs) = add_all (add_eligible c acc) cs

ids-add_all :
    (acc : Eligible) (cs : List Candidate)
    → (add_all acc cs).eligible_ids ≡ acc.eligible_ids ++ ids cs
ids-add_all acc [] = simp append-nil
ids-add_all acc ((sid, timestamp, amount) ∷ cs) =
    rw (ids-add_all (add_eligible (sid, timestamp, amount) acc) cs)
      (append_assoc acc.eligible_ids (sid ∷ []) (ids cs))

amount-add_all :
    (acc : Eligible) (cs : List Candidate)
    → (add_all acc cs).eligible_amount ≤ acc.eligible_amount + total cs
amount-add_all acc [] = omega arith
amount-add_all acc ((sid, timestamp, amount) ∷ cs) =
    ground (arith, amount-add_all (add_eligible (sid, timestamp, amount) acc) cs)

-- The oldest timestamp so far stays a bound, and bounds what is added.
abbrev IsBelow : Option ℤ → ℤ → Type 0
IsBelow none z = Unit
IsBelow (some y) z = z ≤ℤ y

IsBound-add_all :
    (acc : Eligible) (cs : List Candidate) (z : ℤ)
    → IsBelow acc.eligible_oldest_timestamp (unwrap_or (add_all acc cs).eligible_oldest_timestamp z)
      × IsBound (unwrap_or (add_all acc cs).eligible_oldest_timestamp z) cs
IsBound-add_all acc [] z = elim (Option-cases acc.eligible_oldest_timestamp) [
  | inl e ↦ ground arith
  | inr (y, e) ↦ ground arith
]
IsBound-add_all acc ((sid, timestamp, amount) ∷ cs) z =
    let rest = IsBound-add_all (add_eligible (sid, timestamp, amount) acc) cs z in
    elim (Option-cases acc.eligible_oldest_timestamp) [
      | inl e ↦ ground arith
      | inr (y, e) ↦ ground arith
    ]

-- With a time so far, the oldest is that time or the time of a candidate.
IsTimeOf-add_all :
    (acc : Eligible) (cs : List Candidate) (y z : ℤ)
    → acc.eligible_oldest_timestamp ≡ some y
    → (unwrap_or (add_all acc cs).eligible_oldest_timestamp z ≡ y)
      ⊎ IsTimeOf (unwrap_or (add_all acc cs).eligible_oldest_timestamp z) cs
IsTimeOf-add_all acc [] y z h = ground arith
IsTimeOf-add_all acc ((sid, timestamp, amount) ∷ cs) y z h =
    ground
      (arith, IsTimeOf-add_all (add_eligible (sid, timestamp, amount) acc) cs (min_ℤ y timestamp) z)

-- From the start the oldest of some candidates is the time of one of them.
oldest-IsTimeOf :
    (cs : List Candidate) (z : ℤ)
    → ids cs ≢ []
    → IsTimeOf (unwrap_or (add_all no_eligible cs).eligible_oldest_timestamp z) cs
oldest-IsTimeOf [] z h = absurd (h refl)
oldest-IsTimeOf ((sid, timestamp, amount) ∷ cs) z h =
    IsTimeOf-add_all (add_eligible (sid, timestamp, amount) no_eligible) cs timestamp z refl

module _ (batch_timestamp : ℤ) (mode : BatchBuildMode) (config : BatchPrivacyConfig) where
  -- The candidates whose age the mode accepts, in order.
  unfoldable pub eligible : List Candidate → List Candidate
  eligible [] = []
  eligible ((sid, timestamp, amount) ∷ cs) =
      elim (is_eligible mode (batch_timestamp -ℤ timestamp) config) [
        | true ↦ (sid, timestamp, amount) ∷ eligible cs
        | false ↦ eligible cs
      ]

  select_eligible-add_all :
      (cs : List Candidate) (acc acc' : Eligible)
      → select_eligible batch_timestamp mode config cs acc ≡ ok acc'
      → acc' ≡ add_all acc (eligible cs)
  unfolding eligible select_eligible sub_i64
  select_eligible-add_all [] acc acc' h = ground arith
  select_eligible-add_all ((sid, timestamp, amount) ∷ cs) acc acc' h = ground (
    arith,
    select_eligible-add_all cs acc acc',
    select_eligible-add_all cs (add_eligible (sid, timestamp, amount) acc) acc',
  )

  -- A flush, or the anonymity window or the maximal delay has passed.
  abbrev pub Accepts : ℤ → Type 0
  Accepts timestamp =
      (mode ≡ flush)
      ⊎ (config.min_anonymity_window_sec ≤ℤ batch_timestamp -ℤ timestamp)
      ⊎ (max_settlement_delay_sec ≤ℤ batch_timestamp -ℤ timestamp)

  -- The second list is the candidates of the first that are accepted, in order.
  abbrev pub AreChosen : List Candidate → List Candidate → Type 0
  AreChosen [] chosen = chosen ≡ []
  AreChosen ((sid, timestamp, amount) ∷ cs) chosen =
      ((rest : List Candidate) × (chosen ≡ (sid, timestamp, amount) ∷ rest)
        × Accepts timestamp
        × AreChosen cs rest)
      ⊎ (¬ (Accepts timestamp) × AreChosen cs chosen)

  eligible-AreChosen : (cs : List Candidate) → AreChosen cs (eligible cs)
  unfolding eligible
  eligible-AreChosen [] = refl
  eligible-AreChosen ((sid, timestamp, amount) ∷ cs) =
      elim (Bool-cases (is_eligible mode (batch_timestamp -ℤ timestamp) config)) [
        | inl taken ↦ inl (
          eligible cs,
          rw (taken, eligible) refl,
          accepted timestamp taken,
          eligible-AreChosen cs,
        )
        | inr passed ↦ inr (refused timestamp passed, rw (passed, eligible) (eligible-AreChosen cs))
      ]
    where
      accepted :
          (timestamp : ℤ)
          → is_eligible mode (batch_timestamp -ℤ timestamp) config ≡ true
          → Accepts timestamp
      accepted timestamp e = ground arith

      refused :
          (timestamp : ℤ)
          → is_eligible mode (batch_timestamp -ℤ timestamp) config ≡ false
          → ¬ (Accepts timestamp)
      refused timestamp e = ground arith

  -- What is selected of the candidates.
  abbrev pub Selects : List Candidate → ProviderBatchSelection → Type 0
  Selects cs s =
      (chosen : List Candidate) × AreChosen cs chosen
      × (s.settlement_ids ≡ ids chosen)
      × IsOldest s.oldest_timestamp chosen
      × ((mode ≡ flush)
          ⊎ (config.auto_batch_min_provider_payout_atomic ≤ total chosen)
          ⊎ (max_settlement_delay_sec ≤ℤ batch_timestamp -ℤ s.oldest_timestamp))

  -- What the steps after the loop return on any accumulator.
  finish_selection-Selects :
      (acc : Eligible) (s : ProviderBatchSelection)
      → finish_selection batch_timestamp mode config acc ≡ ok (some s)
      → (s.settlement_ids ≡ acc.eligible_ids)
        × (acc.eligible_ids ≢ [])
        × (s.oldest_timestamp ≡ unwrap_or acc.eligible_oldest_timestamp batch_timestamp)
        × ((mode ≡ flush)
            ⊎ (config.auto_batch_min_provider_payout_atomic ≤ acc.eligible_amount)
            ⊎ (max_settlement_delay_sec ≤ℤ batch_timestamp -ℤ s.oldest_timestamp))
  unfolding finish_selection defers provider_payout_floor_satisfied sub_i64
  finish_selection-Selects acc s h = ground arith

  -- What is selected of a provider's settlements is exactly those whose age is accepted, in order,
  -- with the time of the oldest; and it is selected only if they reach the payout floor, the oldest
  -- has waited for the maximal delay, or the batch is a flush.
  pub select_provider_batch_entries-Selects :
      (cs : List Candidate) (s : ProviderBatchSelection)
      → select_provider_batch_entries batch_timestamp mode config cs ≡ ok (some s)
      → Selects cs s
  unfolding select_provider_batch_entries
  select_provider_batch_entries-Selects cs s h =
      elim (Result-cases (select_eligible batch_timestamp mode config cs no_eligible)) [
        | inl (acc, e) ↦
            let loop = select_eligible-add_all cs no_eligible acc e in
            let f = finish_selection-Selects acc s (ground arith) in
            let names = ids-add_all no_eligible (eligible cs) in
            let some_there : ids (eligible cs) ≢ [] = ground arith in
            let bound = IsBound-add_all no_eligible (eligible cs) batch_timestamp in
            let attained = oldest-IsTimeOf (eligible cs) batch_timestamp some_there in
            let paid = amount-add_all no_eligible (eligible cs) in
            (
              eligible cs,
              eligible-AreChosen cs,
              ground arith,
              (ground arith, ground arith),
              ground arith,
            )
        | inr (inl (x, e)) ↦ ground arith
        | inr (inr e) ↦ ground arith
      ]
