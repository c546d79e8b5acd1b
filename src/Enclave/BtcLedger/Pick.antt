-- ===== src/Enclave/BtcLedger/Pick.antt =====
-- enclave/src/btc_ledger.rs: what `pick_single` picks, and what additions and spends make of the sum.
use a.Prelude.{
  u64_mod, ℕ, ◌+◌, ◌≤◌, ◌<◌, ◌≡◌, ◌⊎◌, Option, none, some, [], ◌∷◌, arith, inl, inr, Option-cases,
  leb, ltb, ◌≢◌, Bool-cases, if◌then◌else◌,
}
use a.Prelude.Map.{
  Map, lookup, IsMap, sum_by, sum_by-insert_new, lookup-insert_self, erase-insert, insert-IsMap,
}
use a.Prelude.Outcome.{ok, err, panic, Result-cases, add_u64}
use a.Enclave.BtcLedger.{
  UtxoKey, utxo_eq, utxo_beq_iff, LedgerError, insufficient_funds, BtcUtxoLedger, VaultUtxo, add,
  spend, pick_from, pick_single,
}

-- No output of the list is of use: of those that suffice none is smaller than `value`.
abbrev pub IsLeast : ℕ → ℕ → Map UtxoKey ℕ → Type 0
IsLeast needed value [] = Unit
IsLeast needed value ((k, v) ∷ utxos) = ((v < needed) ⊎ (value ≤ v)) × IsLeast needed value utxos

-- A choice so far suffices, and a later one is no larger.
abbrev Suffices : ℕ → Option VaultUtxo → Type 0
Suffices needed none = Unit
Suffices needed (some p) = needed ≤ p.value_sat

abbrev Improves : VaultUtxo → Option VaultUtxo → Type 0
Improves u none = Unit
Improves u (some p) = u.value_sat ≤ p.value_sat

-- The choice was there before, or is an output of the list.
abbrev Comes : VaultUtxo → Option VaultUtxo → Map UtxoKey ℕ → Type 0
Comes u best utxos = (best ≡ some u) ⊎ (lookup u.key utxos ≡ some u.value_sat)

pick_from-IsLeast :
    (needed : ℕ) (utxos : Map UtxoKey ℕ) (best : Option VaultUtxo) (largest : ℕ) (u : VaultUtxo)
    → IsMap utxos
    → Suffices needed best
    → pick_from needed utxos best largest ≡ ok u
    → (needed ≤ u.value_sat)
      × Improves u best
      × IsLeast needed u.value_sat utxos
      × Comes u best utxos
unfolding pick_from lookup
pick_from-IsLeast needed [] none largest u m s h = ground arith
pick_from-IsLeast needed [] (some p) largest u m s h = ground arith
pick_from-IsLeast needed ((k, v) ∷ utxos) none largest u m s h =
    let here : VaultUtxo = record { key = k; value_sat = v } in
    ground (
      arith,
      utxo_beq_iff u.key k,
      pick_from-IsLeast needed utxos none (if ltb largest v then v else largest) u m.1,
      pick_from-IsLeast needed utxos (some here) (if ltb largest v then v else largest) u m.1,
    )
pick_from-IsLeast needed ((k, v) ∷ utxos) (some p) largest u m s h =
    let here : VaultUtxo = record { key = k; value_sat = v } in
    ground (
      arith,
      utxo_beq_iff u.key k,
      pick_from-IsLeast needed utxos (some p) (if ltb largest v then v else largest) u m.1,
      pick_from-IsLeast needed utxos (some here) (if ltb largest v then v else largest) u m.1,
    )

-- No output suffices, and `largest` is the most that one holds, or what it was before.
abbrev AreShort : ℕ → ℕ → Map UtxoKey ℕ → Type 0
AreShort needed largest [] = Unit
AreShort needed largest ((k, v) ∷ utxos) =
    (v < needed) × (v ≤ largest) × AreShort needed largest utxos

pick_from-ne_panic :
    (needed : ℕ) (utxos : Map UtxoKey ℕ) (best : Option VaultUtxo) (largest : ℕ)
    → pick_from needed utxos best largest ≢ panic
unfolding pick_from
pick_from-ne_panic needed [] none largest h = ground arith
pick_from-ne_panic needed [] (some p) largest h = ground arith
pick_from-ne_panic needed ((k, v) ∷ utxos) best largest h =
    pick_from-ne_panic needed utxos _ (if ltb largest v then v else largest) h

pick_from-ne_err :
    (needed : ℕ) (utxos : Map UtxoKey ℕ) (p : VaultUtxo) (largest : ℕ) (e : LedgerError)
    → pick_from needed utxos (some p) largest ≢ err e
unfolding pick_from
pick_from-ne_err needed [] p largest e h = ground arith
pick_from-ne_err needed ((k, v) ∷ utxos) p largest e h =
    let here : VaultUtxo = record { key = k; value_sat = v } in
    ground (
      arith,
      pick_from-ne_err needed utxos p (if ltb largest v then v else largest) e,
      pick_from-ne_err needed utxos here (if ltb largest v then v else largest) e,
    )

pick_from-AreShort :
    (needed : ℕ) (utxos : Map UtxoKey ℕ) (largest : ℕ) (e : LedgerError)
    → pick_from needed utxos none largest ≡ err e
    → (top : ℕ) × (e ≡ insufficient_funds needed top)
      × ((largest ≤ top) × AreShort needed top utxos)
unfolding pick_from
pick_from-AreShort needed [] largest e h = (largest, ground arith, (omega arith, tt))
pick_from-AreShort needed ((k, v) ∷ utxos) largest e h =
    let here : VaultUtxo = record { key = k; value_sat = v } in
    let top = if ltb largest v then v else largest in
    elim (Bool-cases (leb needed v)) [
      | inl enough ↦ absurd (pick_from-ne_err needed utxos here top e (ground arith))
      | inr short ↦
          let rest = pick_from-AreShort needed utxos top e (ground arith) in
          (
            rest.0,
            rest.1,
            (ground (arith, rest.2.0), (ground arith, ground (arith, rest.2.0), rest.2.1)),
          )
    ]

-- The least output that suffices, of those in the ledger.
abbrev pub Picks : ℕ → BtcUtxoLedger → VaultUtxo → Type 0
Picks needed ledger u =
    (needed ≤ u.value_sat)
    × (lookup u.key ledger.utxos ≡ some u.value_sat)
    × IsLeast needed u.value_sat ledger.utxos

-- A refusal: no output suffices, and the error names an amount that none exceeds.
abbrev pub Refuses : ℕ → BtcUtxoLedger → LedgerError → Type 0
Refuses needed ledger e =
    (top : ℕ) × (e ≡ insufficient_funds needed top) × AreShort needed top ledger.utxos

-- Picking an output of the ledger returns one that suffices, of the least value of those that do,
-- or refuses with an error where none suffices and names a value that none exceeds; it does not
-- panic.
pub pick_single-Picks :
    (needed : ℕ) (ledger : BtcUtxoLedger)
    → IsMap ledger.utxos
    → ((u : VaultUtxo) × (pick_single needed ledger ≡ ok u) × Picks needed ledger u)
      ⊎ ((e : LedgerError) × (pick_single needed ledger ≡ err e) × Refuses needed ledger e)
unfolding pick_single
pick_single-Picks needed ledger m = elim (Result-cases (pick_from needed ledger.utxos none 0)) [
  | inl (u, r) ↦
      let f = pick_from-IsLeast needed ledger.utxos none 0 u m tt r in
      inl (u, r, (f.0, ground (arith, f.3), f.2))
  | inr (inl (e, r)) ↦
      let f = pick_from-AreShort needed ledger.utxos 0 e r in inr (e, r, (f.0, f.1, f.2.1))
  | inr (inr r) ↦ absurd (pick_from-ne_panic needed ledger.utxos none 0 r)
]

-- What the outputs are worth.
abbrev pub worth : ℕ → ℕ
worth value_sat = value_sat

pub total_sat : BtcUtxoLedger → ℕ
total_sat ledger = sum_by worth ledger.utxos

-- An output that was added can be spent, which gives back the ledger but for the count.
pub spend-add :
    (key : UtxoKey) (value_sat : ℕ) (ledger ledger' : BtcUtxoLedger)
    → IsMap ledger.utxos
    → ledger.spent_count + 1 < u64_mod
    → add key value_sat ledger ≡ (ok tt, ledger')
    → IsMap ledger'.utxos
      × (total_sat ledger' ≡ total_sat ledger + value_sat)
      × (spend key ledger' ≡ (ok value_sat, record ledger { spent_count = ledger.spent_count + 1 }))
unfolding add spend total_sat add_u64
spend-add key value_sat ledger ledger' m b h = elim (Option-cases (lookup key ledger.utxos)) [
  | inl e ↦ ground (
    arith,
    insert-IsMap key value_sat ledger.utxos m,
    sum_by-insert_new worth key value_sat ledger.utxos e,
    lookup-insert_self key value_sat ledger.utxos,
    erase-insert key value_sat ledger.utxos e,
  )
  | inr e ↦ ground arith
]
