-- ===== src/Enclave/Batch/RoundRobin.antt =====
-- enclave/src/batch.rs: `select_batch_settlement_ids`. The cursors take turns, the provider that waits
-- longest first, until the batch is full or every cursor is at its end.
pub mod Queues
pub mod Turns
use a.Prelude.{
  ℕ, zero, suc, ◌+◌, String, Bool, true, false, not, ◌&&◌, ◌||◌, Option, none, some, List, [], ◌∷◌,
  ◌++◌, length, get_elem?, leb, ltb,
}
use a.Prelude.Int.{ℤ, leb_ℤ, ltb_ℤ}
use a.Prelude.Codec.{as_bytes}
use a.Prelude.Sort.{leb_bytes, sort_by}
use a.Enclave.Batch.{ProviderBatchCursor}

-- A provider and one of its settlements.
abbrev pub Turn : Type 0
Turn = String × String

-- `cursors.retain(|cursor| !cursor.settlement_ids.is_empty())`
unfoldable pub retain_nonempty : List ProviderBatchCursor → List ProviderBatchCursor
retain_nonempty [] = []
retain_nonempty (c ∷ cs) =
    let rest = retain_nonempty cs in elim c.settlement_ids [ [] ↦ rest | _ ∷ _ ↦ c ∷ rest ]

-- The order of `sort_by`: the oldest credit first, then by the identifier.
abbrev pub older_first : ProviderBatchCursor → ProviderBatchCursor → Bool
older_first a b =
    ltb_ℤ a.oldest_credit_at b.oldest_credit_at
    || (leb_ℤ a.oldest_credit_at b.oldest_credit_at
        && leb_bytes (as_bytes a.provider_id) (as_bytes b.provider_id))

-- What a round leaves: the cursors, what has been selected, and whether any cursor advanced.
pub record Round : Type 0 where
  pub cursors : List ProviderBatchCursor
  pub selected : List Turn
  pub advanced : Bool

-- `for cursor in &mut cursors`, with what `selected` and `advanced` are so far.
unfoldable pub run_round : ℕ → List ProviderBatchCursor → List Turn → Bool → Round
run_round max_entries [] selected advanced = record {
  cursors = [];
  selected = selected;
  advanced = advanced;
}
run_round max_entries (c ∷ cs) selected advanced =
    let skipped = run_round max_entries cs selected advanced in
    elim (leb max_entries (length selected)) [
      | true ↦ record { cursors = c ∷ cs; selected = selected; advanced = advanced }
      | false ↦ elim (get_elem? c.settlement_ids c.next_index) [
        | none ↦ record skipped { cursors = c ∷ skipped.cursors }
        | some settlement_id ↦
            let taken =
              run_round max_entries cs (selected ++ (c.provider_id, settlement_id) ∷ []) true in
            record taken { cursors = record c { next_index = c.next_index + 1 } ∷ taken.cursors }
      ]
    ]

-- `while selected.len() < max_entries`, with `fuel` rounds; `none` is that they ran out.
unfoldable pub run_rounds : ℕ → ℕ → List ProviderBatchCursor → List Turn → Option (List Turn)
unfolding run_round
run_rounds zero max_entries cs selected = none
run_rounds (suc fuel) max_entries cs selected =
    let r = run_round max_entries cs selected false in
    let rest = run_rounds fuel max_entries r.cursors r.selected in
    elim (ltb (length selected) max_entries) [
      | false ↦ some selected
      | true ↦ elim r.advanced [ true ↦ rest | false ↦ some r.selected ]
    ]

-- Every round but the last adds to what is selected.
unfoldable pub select_batch_settlement_ids : List ProviderBatchCursor → ℕ → Option (List Turn)
unfolding retain_nonempty run_rounds
select_batch_settlement_ids cursors max_entries =
    run_rounds (max_entries + 1) max_entries (sort_by older_first (retain_nonempty cursors)) []
