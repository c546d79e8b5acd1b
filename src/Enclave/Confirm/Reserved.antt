-- ===== src/Enclave/Confirm/Reserved.antt =====
-- enclave/src/state.rs: the loop of `apply_batch_confirmation` over settlements that reservations refer to.
use a.Prelude.{ℕ, ◌≡◌, refl, sym, ◌∙◌, String, Bool-cases, some, List, [], ◌∷◌, arith, inl, inr}
use mathlib.Core.Path.{subst}
use a.Prelude.Equality.{◌==◌, string_eq}
use a.Prelude.Map.{
  Map, IsMap, find_entry, lookup, insert, erase, adjust, find_entry-lookup, insert-IsMap,
}
use a.Enclave.State.{VaultState, Reservation}
use a.Enclave.State.Status.{batched_onchain}
use a.Enclave.Confirm.{
  Confirming, take_credit, settles, settle_reference, confirm_reservation, confirm_settlement,
  confirm_settlements, set_add, batch_info,
}
use a.Enclave.Confirm.Due.{Due, ids_due, IsReserved, AreReserved}
use a.Enclave.Confirm.Taken.{taken, affected_by}

-- A payment is found again after the reservation of another, or its own, has changed its status.
pub IsReserved-restatus :
    (key : String) (r : Reservation) (d : Due) (m : Map String Reservation)
    → lookup key m ≡ some r
    → IsReserved d m
    → IsReserved d (insert key (record r { status = batched_onchain }) m)
unfolding find_entry insert settles lookup
IsReserved-restatus key r (sid, provider, amount) [] e h = absurd (ground arith)
IsReserved-restatus key r (sid, provider, amount) ((k, v) ∷ m) e (k', r', found, same, much) =
    let r'' : Reservation = record r { status = batched_onchain } in
    elim (Bool-cases (key == k)) [
      | inl here ↦
          let e' : v ≡ r = ground arith in
          elim (Bool-cases (settles sid v)) [
            | inl held ↦ (key, r'', ground arith, ground arith, ground arith)
            | inr passed ↦ (k', r', ground arith, same, much)
          ]
      | inr there ↦ elim (Bool-cases (settles sid v)) [
        | inl held ↦ (k, v, ground arith, ground arith, ground arith)
        | inr passed ↦
            let (k'', w, again, same', much') =
              IsReserved-restatus key r (sid, provider, amount) m (ground arith)
                (k', r', ground arith, same, much) in
            (k'', w, ground arith, same', much')
      ]
    ]

pub AreReserved-restatus :
    (key : String) (r : Reservation) (dues : List Due) (m : Map String Reservation)
    → lookup key m ≡ some r
    → AreReserved dues m
    → AreReserved dues (insert key (record r { status = batched_onchain }) m)
AreReserved-restatus key r [] m e h = tt
AreReserved-restatus key r (d ∷ dues) m e h =
    (IsReserved-restatus key r d m e h.0, AreReserved-restatus key r dues m e h.1)

module _ (batch_id : ℕ) (tx_signature : String) where
  pub confirm_settlements-taken :
      (dues : List Due) (v : VaultState) (affected : List String)
      → IsMap v.reservations
      → AreReserved dues v.reservations
      → ((confirm_settlements batch_id tx_signature (ids_due dues) (v, affected)).0.provider_credits
          ≡ taken dues v.provider_credits)
        × ((confirm_settlements batch_id tx_signature (ids_due dues) (v, affected)).1
            ≡ affected_by dues affected)
  unfolding confirm_settlements confirm_settlement settle_reference confirm_reservation
  confirm_settlements-taken [] v affected h k = (refl, refl)
  confirm_settlements-taken ((sid, provider, amount) ∷ dues) v affected h
        ((key, r, found, named, much), k) =
      let v' : VaultState = record v {
        settlement_history = erase sid v.settlement_history;
        settlement_batches = insert sid (batch_info batch_id tx_signature) v.settlement_batches;
      } in
      let s' = confirm_reservation sid key r (v', affected) in
      let step : settle_reference sid (v', affected) ≡ s' = rw (found, settle_reference) refl in
      let there = find_entry-lookup (settles sid) v.reservations key r h found in
      let rest =
        confirm_settlements-taken dues s'.0 s'.1
          (insert-IsMap key (record r { status = batched_onchain }) v.reservations h)
          (AreReserved-restatus key r dues v.reservations there.0 k) in
      let go : (Confirming → Type 0) = λ t.
        ((confirm_settlements batch_id tx_signature (ids_due dues) t).0.provider_credits
          ≡ taken dues (adjust provider (take_credit amount sid) v.provider_credits))
        × ((confirm_settlements batch_id tx_signature (ids_due dues) t).1
            ≡ affected_by dues (set_add provider affected)) in
      subst go (sym step) (rest.0 ∙ rw (named, much) refl, rest.1 ∙ rw named refl)
