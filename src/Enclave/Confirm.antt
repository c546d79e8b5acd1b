-- ===== src/Enclave/Confirm.antt =====
-- enclave/src/state.rs: `apply_batch_confirmation`, what a batch that was confirmed on chain does to the
-- vault. The sets and maps are gone through in the order of their lists.
pub mod Recorded
pub mod Stamped
pub mod Due
pub mod Taken
pub mod Swept
pub mod Refreshed
pub mod Reserved
pub mod Credits
use a.Prelude.{
  ℕ, ◌-◌, String, Bool, true, false, ◌||◌, Option, none, some, List, [], ◌∷◌, unwrap_or,
}
use a.Prelude.Int.{ℤ, min_ℤ}
use a.Prelude.Equality.{◌==◌, string_eq, nat_eq, contains, remove}
use a.Prelude.Map.{Map, lookup, insert, erase, find_entry, adjust}
use a.Enclave.State.{
  VaultState, Reservation, ProviderCredit, MultiChainProviderCredit, SettlementRecord,
  SettlementBatchInfo,
}
use a.Enclave.Payment.{is_spent}
use a.Enclave.State.Status.{batched_onchain}

-- `HashSet::insert`
unfoldable pub set_add : String → List String → List String
set_add x xs = elim (contains xs x) [ true ↦ xs | false ↦ x ∷ xs ]

-- `entry.settlement_id.as_ref().map(|value| value == settlement_id).unwrap_or(false)`
unfoldable pub settles : String → Reservation → Bool
settles sid r = elim r.settlement_id [ none ↦ false | some value ↦ value == sid ]

-- `credited_amount.saturating_sub(amount)` and `settlement_ids.retain(..)`
abbrev pub take_credit : ℕ → String → ProviderCredit → ProviderCredit
take_credit amount sid credit = record credit {
  credited_amount = credit.credited_amount - amount;
  settlement_ids = remove credit.settlement_ids sid;
}

abbrev pub take_multi_chain : ℕ → String → MultiChainProviderCredit → MultiChainProviderCredit
take_multi_chain amount sid credit = record credit {
  credited_amount = credit.credited_amount - amount;
  settlement_ids = remove credit.settlement_ids sid;
}

-- The vault, and `affected_provider_ids`.
abbrev pub Confirming : Type 0
Confirming = VaultState × List String

-- `iter_mut()` up to the first credit that lists the settlement, which then lists it no more.
unfoldable pub drop_listed : String → Confirming → Confirming
drop_listed sid (v, affected) =
    elim (find_entry (λ credit. contains credit.settlement_ids sid) v.provider_credits) [
      | none ↦ (v, affected)
      | some (key, credit) ↦ (
        record v {
          provider_credits =
              insert key (record credit { settlement_ids = remove credit.settlement_ids sid })
                v.provider_credits;
        },
        set_add credit.provider_id affected,
      )
    ]

unfoldable pub drop_multi_chain : String → Confirming → Confirming
drop_multi_chain sid (v, affected) =
    elim (find_entry (λ credit. contains credit.settlement_ids sid)
      v.multi_chain_provider_credits) [
        | none ↦ (v, affected)
        | some (key, credit) ↦ (
          record v {
            multi_chain_provider_credits =
                insert key (record credit { settlement_ids = remove credit.settlement_ids sid })
                  v.multi_chain_provider_credits;
          },
          set_add credit.provider_id affected,
        )
      ]

-- The settlement of a reservation, found under `key`.
unfoldable pub confirm_reservation : String → String → Reservation → Confirming → Confirming
confirm_reservation sid key r (v, affected) = (
  record v {
    provider_credits = adjust r.provider_id (take_credit r.amount sid) v.provider_credits;
    multi_chain_provider_credits =
        adjust r.provider_id (take_multi_chain r.amount sid) v.multi_chain_provider_credits;
    reservations = insert key (record r { status = batched_onchain }) v.reservations;
  },
  set_add r.provider_id affected,
)

unfoldable pub settle_reference : String → Confirming → Confirming
unfolding confirm_reservation drop_listed drop_multi_chain settles set_add
settle_reference sid (v, affected) = elim (find_entry (settles sid) v.reservations) [
  | some (key, r) ↦ confirm_reservation sid key r (v, affected)
  | none ↦ drop_multi_chain sid (drop_listed sid (v, affected))
]

module _ (batch_id : ℕ) (tx_signature : String) where
  abbrev pub batch_info : SettlementBatchInfo
  batch_info = record { batch_id = batch_id; tx_signature = tx_signature }

  -- The body of the loop over the settlements.
  unfoldable pub confirm_settlement : String → Confirming → Confirming
  unfolding settle_reference
  confirm_settlement sid (v, affected) = settle_reference sid (
    record v {
      settlement_history = erase sid v.settlement_history;
      settlement_batches = insert sid batch_info v.settlement_batches;
    },
    affected,
  )

  unfoldable pub confirm_settlements : List String → Confirming → Confirming
  unfolding confirm_settlement
  confirm_settlements [] s = s
  confirm_settlements (sid ∷ sids) s = confirm_settlements sids (confirm_settlement sid s)

-- `provider_ids_to_remove`, for the credits on Solana.
unfoldable pub spent_credits : List String → Map String ProviderCredit → List String
spent_credits [] credits = []
spent_credits (id ∷ ids) credits =
    let rest = spent_credits ids credits in
    elim (lookup id credits) [
      | none ↦ rest
      | some credit ↦ elim (is_spent credit.credited_amount credit.settlement_ids) [
        | true ↦ id ∷ rest
        | false ↦ rest
      ]
    ]

-- `multichain_provider_ids_to_remove`
unfoldable pub spent_multi_chain : List String → Map String MultiChainProviderCredit → List String
spent_multi_chain [] credits = []
spent_multi_chain (id ∷ ids) credits =
    let rest = spent_multi_chain ids credits in
    elim (lookup id credits) [
      | none ↦ rest
      | some credit ↦ elim (is_spent credit.credited_amount credit.settlement_ids) [
        | true ↦ id ∷ rest
        | false ↦ rest
      ]
    ]

unfoldable pub erase_all : {V : Type 0} → List String → Map String V → Map String V
erase_all [] m = m
erase_all (id ∷ ids) m = erase_all ids (erase id m)

unfoldable pub remove_all : List String → List String → List String
remove_all [] xs = xs
remove_all (id ∷ ids) xs = remove_all ids (remove xs id)

unfoldable pub remove_spent : Confirming → Confirming
unfolding spent_credits erase_all remove_all
remove_spent (v, affected) =
    let ids = spent_credits affected v.provider_credits in
    (record v { provider_credits = erase_all ids v.provider_credits }, remove_all ids affected)

unfoldable pub remove_spent_multi_chain : Confirming → Confirming
unfolding spent_multi_chain erase_all remove_all
remove_spent_multi_chain (v, affected) =
    let ids = spent_multi_chain affected v.multi_chain_provider_credits in
    (
      record v { multi_chain_provider_credits = erase_all ids v.multi_chain_provider_credits },
      remove_all ids affected,
    )

-- The earliest timestamp in the history of what a credit lists.
unfoldable pub earliest : List String → Map String SettlementRecord → Option ℤ
earliest [] history = none
earliest (sid ∷ sids) history =
    let rest = earliest sids history in
    elim (lookup sid history) [
      | none ↦ rest
      | some r ↦ elim rest [ none ↦ some r.timestamp | some other ↦ some (min_ℤ r.timestamp other) ]
    ]

-- `if let Some(oldest_credit_at) = .. { credit.oldest_credit_at = oldest_credit_at }`
abbrev pub refresh_credit : Map String SettlementRecord → ProviderCredit → ProviderCredit
refresh_credit history credit = record credit {
  oldest_credit_at = unwrap_or (earliest credit.settlement_ids history) credit.oldest_credit_at;
}

abbrev pub refresh_multi_chain :
    Map String SettlementRecord → MultiChainProviderCredit → MultiChainProviderCredit
refresh_multi_chain history credit = record credit {
  oldest_credit_at = unwrap_or (earliest credit.settlement_ids history) credit.oldest_credit_at;
}

unfoldable pub refresh_oldest : List String → VaultState → VaultState
unfolding earliest
refresh_oldest [] v = v
refresh_oldest (id ∷ ids) v = refresh_oldest ids (record v {
  provider_credits = adjust id (refresh_credit v.settlement_history) v.provider_credits;
  multi_chain_provider_credits =
      adjust id (refresh_multi_chain v.settlement_history) v.multi_chain_provider_credits;
})

unfoldable pub apply_batch_confirmation : List String → ℕ → String → VaultState → VaultState
unfolding confirm_settlements remove_spent remove_spent_multi_chain refresh_oldest
apply_batch_confirmation settlement_ids batch_id tx_signature v =
    let (v', affected) =
      remove_spent_multi_chain
        (remove_spent (confirm_settlements batch_id tx_signature settlement_ids (v, []))) in
    refresh_oldest affected v'
