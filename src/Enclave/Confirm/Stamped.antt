-- ===== src/Enclave/Confirm/Stamped.antt =====
-- enclave/src/state.rs: `apply_batch_confirmation` and the time of the last batch, which it never reads.
use a.Prelude.{ℕ, ◌≡◌, refl, ap, ◌∙◌, String, List, [], ◌∷◌, inl, inr, Option-cases}
use a.Prelude.Int.{ℤ}
use a.Prelude.Equality.{string_eq, contains}
use a.Prelude.Map.{find_entry, insert, erase, adjust}
use a.Enclave.State.{VaultState, ProviderCredit, MultiChainProviderCredit}
use a.Enclave.Confirm.{
  Confirming, confirm_reservation, drop_listed, drop_multi_chain, settle_reference,
  confirm_settlement, confirm_settlements, remove_spent, remove_spent_multi_chain, refresh_credit,
  refresh_multi_chain, refresh_oldest, apply_batch_confirmation, settles, batch_info,
}

module _ (at : ℤ) where
  -- The vault as if its last batch had been at the time `at`.
  abbrev pub stamped : VaultState → VaultState
  stamped v = record v { last_batch_at = at }

  abbrev on_vault : Confirming → Confirming
  on_vault (v, affected) = (stamped v, affected)

  drop_listed-stamped :
      (sid : String) (s : Confirming) → drop_listed sid (on_vault s) ≡ on_vault (drop_listed sid s)
  unfolding drop_listed
  drop_listed-stamped sid (v, affected) =
      elim (Option-cases (
        find_entry (λ (credit : ProviderCredit). contains credit.settlement_ids sid)
          v.provider_credits)) [
            | inl e ↦ rw (e, drop_listed) refl
            | inr (kc, e) ↦ rw (e, drop_listed) refl
          ]

  drop_multi_chain-stamped :
      (sid : String) (s : Confirming)
      → drop_multi_chain sid (on_vault s) ≡ on_vault (drop_multi_chain sid s)
  unfolding drop_multi_chain
  drop_multi_chain-stamped sid (v, affected) =
      elim (Option-cases (
        find_entry (λ (credit : MultiChainProviderCredit). contains credit.settlement_ids sid)
          v.multi_chain_provider_credits)) [
            | inl e ↦ rw (e, drop_multi_chain) refl
            | inr (kc, e) ↦ rw (e, drop_multi_chain) refl
          ]

  settle_reference-stamped :
      (sid : String) (s : Confirming)
      → settle_reference sid (on_vault s) ≡ on_vault (settle_reference sid s)
  unfolding settle_reference confirm_reservation
  settle_reference-stamped sid (v, affected) =
      elim (Option-cases (find_entry (settles sid) v.reservations)) [
        | inl e ↦
            let dropped : drop_multi_chain sid (drop_listed sid (stamped v, affected))
                ≡ on_vault (drop_multi_chain sid (drop_listed sid (v, affected))) =
              ap (drop_multi_chain sid) (drop_listed-stamped sid (v, affected))
              ∙ drop_multi_chain-stamped sid (drop_listed sid (v, affected)) in
            rw (e, settle_reference) dropped
        | inr (kr, e) ↦ rw (e, settle_reference, confirm_reservation) refl
      ]

  refresh_oldest-stamped :
      (ids : List String) (v : VaultState)
      → refresh_oldest ids (stamped v) ≡ stamped (refresh_oldest ids v)
  unfolding refresh_oldest
  refresh_oldest-stamped [] v = refl
  refresh_oldest-stamped (id ∷ ids) v = refresh_oldest-stamped ids (record v {
    provider_credits = adjust id (refresh_credit v.settlement_history) v.provider_credits;
    multi_chain_provider_credits =
        adjust id (refresh_multi_chain v.settlement_history) v.multi_chain_provider_credits;
  })

  module _ (batch_id : ℕ) (tx_signature : String) where
    confirm_settlements-stamped :
        (ids : List String) (s : Confirming)
        → confirm_settlements batch_id tx_signature ids (on_vault s)
          ≡ on_vault (confirm_settlements batch_id tx_signature ids s)
    unfolding confirm_settlements confirm_settlement
    confirm_settlements-stamped [] s = refl
    confirm_settlements-stamped (sid ∷ ids) (v, affected) =
        ap (confirm_settlements batch_id tx_signature ids) (
          settle_reference-stamped sid (
            record v {
              settlement_history = erase sid v.settlement_history;
              settlement_batches =
                  insert sid (batch_info batch_id tx_signature) v.settlement_batches;
            },
            affected,
          ))
        ∙ confirm_settlements-stamped ids
            (confirm_settlement batch_id tx_signature sid (v, affected))

    pub apply_batch_confirmation-stamped :
        (ids : List String) (v : VaultState)
        → apply_batch_confirmation ids batch_id tx_signature (stamped v)
          ≡ stamped (apply_batch_confirmation ids batch_id tx_signature v)
    unfolding apply_batch_confirmation remove_spent remove_spent_multi_chain
    apply_batch_confirmation-stamped ids v =
        let s = confirm_settlements batch_id tx_signature ids (v, []) in
        let last = remove_spent_multi_chain (remove_spent s) in
        let finish : Confirming → VaultState = λ t.
          refresh_oldest (remove_spent_multi_chain (remove_spent t)).1
            (remove_spent_multi_chain (remove_spent t)).0 in
        ap finish (confirm_settlements-stamped ids (v, [])) ∙ refresh_oldest-stamped last.1 last.0
