-- ===== src/Enclave/Confirm/Recorded.antt =====
-- enclave/src/state.rs: the settlements, balances and channels after `apply_batch_confirmation`.
use a.Prelude.{ℕ, ◌≡◌, refl, String, none, some, List, [], ◌∷◌, if◌then◌else◌, arith}
use a.Prelude.Equality.{string_eq, contains}
use a.Prelude.Map.{IsMap, lookup, insert, erase, lookup-insert, lookup-erase, erase-IsMap}
use a.Enclave.State.{VaultState}
use a.Enclave.Confirm.{
  Confirming, confirm_reservation, drop_listed, drop_multi_chain, settle_reference, batch_info,
  confirm_settlement, confirm_settlements, remove_spent, remove_spent_multi_chain, refresh_oldest,
  apply_batch_confirmation,
}

-- Apart from credits and reservations the two vaults agree.
abbrev pub Agree : VaultState → VaultState → Type 0
Agree v v' =
    (v'.settlement_history ≡ v.settlement_history)
    × (v'.settlement_batches ≡ v.settlement_batches)
    × (v'.client_balances ≡ v.client_balances)
    × (v'.active_channels ≡ v.active_channels)
    × (v'.pending_withdrawals ≡ v.pending_withdrawals)

-- The balances of the clients and what backs them are the same.
abbrev pub SameBalances : VaultState → VaultState → Type 0
SameBalances v v' =
    (v'.client_balances ≡ v.client_balances)
    × (v'.active_channels ≡ v.active_channels)
    × (v'.pending_withdrawals ≡ v.pending_withdrawals)

pub settle_reference-Agree : (sid : String) (s : Confirming) → Agree s.0 (settle_reference sid s).0
unfolding settle_reference confirm_reservation drop_listed drop_multi_chain
settle_reference-Agree sid (v, affected) = ground arith

remove_spent-Agree : (s : Confirming) → Agree s.0 (remove_spent s).0
unfolding remove_spent
remove_spent-Agree (v, affected) = (refl, refl, refl, refl, refl)

remove_spent_multi_chain-Agree : (s : Confirming) → Agree s.0 (remove_spent_multi_chain s).0
unfolding remove_spent_multi_chain
remove_spent_multi_chain-Agree (v, affected) = (refl, refl, refl, refl, refl)

refresh_oldest-Agree : (ids : List String) (v : VaultState) → Agree v (refresh_oldest ids v)
unfolding refresh_oldest
refresh_oldest-Agree [] v = (refl, refl, refl, refl, refl)
refresh_oldest-Agree (id ∷ ids) v =
    refresh_oldest-Agree ids (record v { provider_credits = _; multi_chain_provider_credits = _ })

module _ (batch_id : ℕ) (tx_signature : String) where
  -- What the two maps hold for the settlement `x` after `ids` are confirmed.
  abbrev pub Records : List String → String → VaultState → VaultState → Type 0
  Records ids x v v' =
      (lookup x v'.settlement_batches ≡ (
        if contains ids x
        then some (batch_info batch_id tx_signature)
        else lookup x v.settlement_batches))
      × (lookup x v'.settlement_history
          ≡ (if contains ids x then none else lookup x v.settlement_history))

  confirm_settlement-Records :
      (sid x : String) (s : Confirming)
      → IsMap s.0.settlement_history
      → Records (sid ∷ []) x s.0 (confirm_settlement batch_id tx_signature sid s).0
        × IsMap (confirm_settlement batch_id tx_signature sid s).0.settlement_history
        × SameBalances s.0 (confirm_settlement batch_id tx_signature sid s).0
  unfolding confirm_settlement contains
  confirm_settlement-Records sid x (v, affected) h = ground (
    arith,
    settle_reference-Agree sid (
      record v {
        settlement_history = erase sid v.settlement_history;
        settlement_batches = insert sid (batch_info batch_id tx_signature) v.settlement_batches;
      },
      affected,
    ),
    lookup-insert sid x (batch_info batch_id tx_signature) v.settlement_batches,
    lookup-erase sid x v.settlement_history h,
    erase-IsMap sid v.settlement_history h,
  )

  confirm_settlements-Records :
      (ids : List String) (x : String) (s : Confirming)
      → IsMap s.0.settlement_history
      → Records ids x s.0 (confirm_settlements batch_id tx_signature ids s).0
        × SameBalances s.0 (confirm_settlements batch_id tx_signature ids s).0
  unfolding confirm_settlements contains
  confirm_settlements-Records [] x s h = ((refl, refl), (refl, refl, refl))
  confirm_settlements-Records (sid ∷ ids) x s h =
      let one = confirm_settlement-Records sid x s h in
      let rest =
        confirm_settlements-Records ids x (confirm_settlement batch_id tx_signature sid s) one.1 in
      ground (arith, one, rest)

  -- After a confirmation every confirmed settlement is recorded under the batch and its transaction
  -- and has left the history, every other settlement is as it was, and the balances, the channels
  -- and the pending withdrawals are unchanged.
  pub apply_batch_confirmation-Records :
      (ids : List String) (v : VaultState) (x : String)
      → IsMap v.settlement_history
      → Records ids x v (apply_batch_confirmation ids batch_id tx_signature v)
        × SameBalances v (apply_batch_confirmation ids batch_id tx_signature v)
  unfolding apply_batch_confirmation
  apply_batch_confirmation-Records ids v x h =
      let s = confirm_settlements batch_id tx_signature ids (v, []) in
      let spent = remove_spent s in
      let last = remove_spent_multi_chain spent in
      ground (
        arith,
        confirm_settlements-Records ids x (v, []) h,
        remove_spent-Agree s,
        remove_spent_multi_chain-Agree spent,
        refresh_oldest-Agree last.1 last.0,
      )
