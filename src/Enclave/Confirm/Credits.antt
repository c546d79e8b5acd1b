-- ===== src/Enclave/Confirm/Credits.antt =====
-- enclave/src/state.rs: the credits of the providers after `apply_batch_confirmation`, for settlements that
-- reservations refer to.
use a.Prelude.{ℕ, ◌≡◌, refl, sym, ap, ◌∙◌, String, false, Bool-cases, List, [], arith, inl, inr}
use mathlib.Core.Path.{subst}
use a.Prelude.Equality.{string_eq, contains}
use a.Prelude.Map.{IsMap, lookup}
use a.Enclave.State.{VaultState}
use a.Enclave.Confirm.{
  confirm_settlements, spent_credits, remove_spent, remove_spent_multi_chain, refresh_oldest,
  apply_batch_confirmation, spent_multi_chain,
}
use a.Enclave.Confirm.Due.{Due, ids_due, AreReserved, is_due, IsReduced, IsSettled}
use a.Enclave.Confirm.Taken.{contains-affected_by}
use a.Enclave.Confirm.Swept.{
  contains-remove_all, settled_map, settled_map_other, settled_map-IsReduced,
}
use a.Enclave.Confirm.Refreshed.{refresh_other, refresh-IsRefreshed, IsReduced-IsRefreshed}
use a.Enclave.Confirm.Reserved.{confirm_settlements-taken}

module _ (batch_id : ℕ) (tx_signature : String) where
  -- Confirming a batch of settlements that reservations refer to settles the credits on Solana: the
  -- credit of a provider that is paid something is gone if it owes no more than the sum of the
  -- amounts of its reservations or lists no other settlement, and otherwise owes exactly that sum
  -- less and lists the others, the time of its oldest settlement aside; the credit of a provider
  -- that is paid nothing does not change.
  pub apply_batch_confirmation-IsSettled :
      (p : String) (dues : List Due) (v : VaultState)
      → IsMap v.provider_credits
      → IsMap v.reservations
      → AreReserved dues v.reservations
      → IsSettled p dues v (apply_batch_confirmation (ids_due dues) batch_id tx_signature v)
  unfolding apply_batch_confirmation remove_spent remove_spent_multi_chain contains
  apply_batch_confirmation-IsSettled p dues v h u k =
      let s = confirm_settlements batch_id tx_signature (ids_due dues) (v, []) in
      let spent = remove_spent s in
      let last = remove_spent_multi_chain spent in
      let (credits, affected) = confirm_settlements-taken batch_id tx_signature dues v [] u k in
      let map : last.0.provider_credits ≡ settled_map dues v.provider_credits =
        rw (credits, affected) refl in
      elim (Bool-cases (is_due p dues)) [
        | inl due ↦ inl (
          due,
          IsReduced-IsRefreshed p dues (lookup p v.provider_credits)
              (lookup p last.0.provider_credits)
              (lookup p (refresh_oldest last.1 last.0).provider_credits)
              (subst (λ m. IsReduced p dues (lookup p v.provider_credits) (lookup p m)) (sym map)
                (settled_map-IsReduced p dues v.provider_credits h due))
              (refresh-IsRefreshed p last.1 last.0),
        )
        | inr other ↦
            let alone : contains s.1 p ≡ false =
              ground (arith, affected, contains-affected_by p dues []) in
            inr (
              other,
              refresh_other p last.1 last.0 (
                    contains-remove_all p
                      (spent_multi_chain spent.1 spent.0.multi_chain_provider_credits) spent.1
                      (contains-remove_all p (spent_credits s.1 s.0.provider_credits) s.1 alone))
                  ∙ (ap (lookup p) map ∙ settled_map_other p dues v.provider_credits h other),
            )
      ]
