-- ===== src/Enclave/Backing/Refund.antt =====
-- Rolling back a settled payment (enclave/src/state.rs) gives the vault back as it was.
use a.Prelude.{
  ℕ, ◌+◌, ◌-◌, ◌≤◌, ◌<◌, ◌≡◌, ◌≢◌, refl, ◌∙◌, false, String, some, none, List, [], ◌∷◌, ◌++◌, arith,
  inl, inr, Option-cases, Bool-cases, u64_mod,
}
use a.Prelude.Int.{ℤ}
use a.Prelude.Equality.{Pubkey, nat_eq, string_eq, bytes_eq, contains, remove, beq_refl}
use a.Prelude.Map.{
  Map, lookup, insert, lookup-insert_self, insert-insert, insert-lookup, erase-insert,
}
use a.Prelude.Outcome.{ok, add_u64}
use a.Enclave.State.{
  ClientBalance, ProviderCredit, MultiChainProviderCredit, ProviderRegistration, VaultState,
}
use a.Enclave.Access.{at_balance}
use a.Enclave.Payment.{
  is_solana_network, credit_or_new, multi_chain_credit_or_new, credit_solana, credit_multi_chain,
  is_spent, uncredit_solana, uncredit_multi_chain, uncredit, settle_payment,
  rollback_settle_payment,
}

remove-append :
    (xs : List String) (x : String) → contains xs x ≡ false → remove (xs ++ x ∷ []) x ≡ xs
unfolding contains remove
remove-append [] x h = ground (arith, beq_refl x)
remove-append (y ∷ ys) x h = ground (arith, remove-append ys x)

add_sub : (a b : ℕ) → a + b - b ≡ a
add_sub a b = omega arith

sub_add : (a b : ℕ) → b ≤ a → a - b + b ≡ a
sub_add a b h = omega arith

-- A credit that the settlement `sid` can be taken out of again.
abbrev pub IsOpenCredit : ℕ → List String → String → Type 0
IsOpenCredit credited_amount settlement_ids sid =
    (0 < credited_amount) × (settlement_ids ≢ []) × (contains settlement_ids sid ≡ false)

module _ (reg : ProviderRegistration) (amount : ℕ) (id sid : String) (now : ℤ)
    (v v' : VaultState) where
  uncredit-credit_solana :
      ((c : ProviderCredit)
        → lookup id v.provider_credits ≡ some c
        → IsOpenCredit c.credited_amount c.settlement_ids sid)
      → credit_solana reg amount id sid now v ≡ (ok tt, v')
      → uncredit_solana amount id sid v' ≡ (ok tt, v)
  unfolding credit_solana uncredit_solana is_spent add_u64
  uncredit-credit_solana fresh h = elim (Option-cases (lookup id v.provider_credits)) [
    | inl new ↦
        let c : ProviderCredit = record (credit_or_new none reg id now) {
          credited_amount = 0 + amount;
          settlement_ids = sid ∷ [];
        } in
        let c' : ProviderCredit = record c {
          credited_amount = 0 + amount - amount;
          settlement_ids = remove (sid ∷ []) sid;
        } in
        let m = v.provider_credits in
        ground (arith, lookup-insert_self id c m, insert-insert id c c' m, erase-insert id c' m new)
    | inr (c0, old) ↦
        let (positive, some_ids, absent) = fresh c0 old in
        let c : ProviderCredit = record c0 {
          credited_amount = c0.credited_amount + amount;
          settlement_ids = c0.settlement_ids ++ sid ∷ [];
        } in
        let c' : ProviderCredit = record c {
          credited_amount = c0.credited_amount + amount - amount;
          settlement_ids = remove (c0.settlement_ids ++ sid ∷ []) sid;
        } in
        let m = v.provider_credits in
        let same : c' ≡ c0 =
          rw (remove-append c0.settlement_ids sid absent, add_sub c0.credited_amount amount) refl in
        ground (
          arith,
          same,
          lookup-insert_self id c m,
          insert-insert id c c' m,
          insert-lookup id c0 m old,
        )
  ]

  uncredit-credit_multi_chain :
      ((c : MultiChainProviderCredit)
        → lookup id v.multi_chain_provider_credits ≡ some c
        → IsOpenCredit c.credited_amount c.settlement_ids sid)
      → credit_multi_chain reg amount id sid now v ≡ (ok tt, v')
      → uncredit_multi_chain amount id sid v' ≡ (ok tt, v)
  unfolding credit_multi_chain uncredit_multi_chain is_spent add_u64
  uncredit-credit_multi_chain fresh h =
      elim (Option-cases (lookup id v.multi_chain_provider_credits)) [
        | inl new ↦
            let c : MultiChainProviderCredit = record (multi_chain_credit_or_new none reg id now) {
              credited_amount = 0 + amount;
              settlement_ids = sid ∷ [];
            } in
            let c' : MultiChainProviderCredit = record c {
              credited_amount = 0 + amount - amount;
              settlement_ids = remove (sid ∷ []) sid;
            } in
            let m = v.multi_chain_provider_credits in
            ground
              (arith, lookup-insert_self id c m, insert-insert id c c' m, erase-insert id c' m new)
        | inr (c0, old) ↦
            let (positive, some_ids, absent) = fresh c0 old in
            let c : MultiChainProviderCredit = record c0 {
              credited_amount = c0.credited_amount + amount;
              settlement_ids = c0.settlement_ids ++ sid ∷ [];
            } in
            let c' : MultiChainProviderCredit = record c {
              credited_amount = c0.credited_amount + amount - amount;
              settlement_ids = remove (c0.settlement_ids ++ sid ∷ []) sid;
            } in
            let m = v.multi_chain_provider_credits in
            let same : c' ≡ c0 =
              rw (remove-append c0.settlement_ids sid absent, add_sub c0.credited_amount amount)
                refl in
            ground (
              arith,
              same,
              lookup-insert_self id c m,
              insert-insert id c c' m,
              insert-lookup id c0 m old,
            )
      ]

-- Crediting a provider neither reads nor writes the balances.
abbrev with_balances : Map Pubkey ClientBalance → VaultState → VaultState
with_balances m v = record v { client_balances = m }

module _ (reg : ProviderRegistration) (amount : ℕ) (id sid : String) (now : ℤ)
    (m : Map Pubkey ClientBalance) (v v' : VaultState) where
  credit_solana-frame :
      credit_solana reg amount id sid now (with_balances m v) ≡ (ok tt, v')
      → (credit_solana reg amount id sid now v ≡ (ok tt, with_balances v.client_balances v'))
        × (v'.client_balances ≡ m)
        × (v'.providers ≡ v.providers)
  unfolding credit_solana add_u64
  credit_solana-frame h = ground arith

  credit_multi_chain-frame :
      credit_multi_chain reg amount id sid now (with_balances m v) ≡ (ok tt, v')
      → (credit_multi_chain reg amount id sid now v ≡ (ok tt, with_balances v.client_balances v'))
        × (v'.client_balances ≡ m)
        × (v'.providers ≡ v.providers)
  unfolding credit_multi_chain add_u64
  credit_multi_chain-frame h = ground arith

-- The client has the amount locked, and the credits that the provider has already stay when the
-- settlement is taken out of them.
pub record CanSettle (client : Pubkey) (amount : ℕ) (id sid : String) (v : VaultState)
    : Type 0 where
  pub balance : ClientBalance
  pub found : lookup client v.client_balances ≡ some balance
  pub enough : amount ≤ balance.locked
  pub bounded : balance.locked < u64_mod
  pub fresh :
      (c : ProviderCredit)
      → lookup id v.provider_credits ≡ some c
      → IsOpenCredit c.credited_amount c.settlement_ids sid
  pub fresh_multi :
      (c : MultiChainProviderCredit)
      → lookup id v.multi_chain_provider_credits ≡ some c
      → IsOpenCredit c.credited_amount c.settlement_ids sid

-- Rolling back a payment that was settled gives the vault back exactly, whichever credit the
-- provider had: the client had the amount locked, and a credit that was there already is of more
-- than nothing, has settlements, and not this one.
pub rollback-settle :
    (client : Pubkey) (amount : ℕ) (id sid : String) (now : ℤ) (v v' : VaultState)
    → CanSettle client amount id sid v
    → settle_payment client amount id sid now v ≡ (ok tt, v')
    → rollback_settle_payment client amount id sid v' ≡ (ok tt, v)
unfolding settle_payment rollback_settle_payment uncredit at_balance add_u64
rollback-settle client amount id sid now v v' can h =
    let b = can.balance in
    let b' : ClientBalance = record b { locked = b.locked - amount } in
    let m = insert client b' v.client_balances in
    let restored : ClientBalance = record b' { locked = b.locked - amount + amount } in
    let same : restored ≡ b = rw (sub_add b.locked amount can.enough) refl in
    let back : insert client restored m ≡ v.client_balances = rw same (
      insert-insert client b' b v.client_balances
      ∙ insert-lookup client b v.client_balances can.found) in
    let again = lookup-insert_self client b' v.client_balances in
    elim (Option-cases (lookup id v.providers)) [
      | inl unknown ↦ absurd (ground (arith, can.found))
      | inr (reg, registered) ↦ elim (Bool-cases (is_solana_network reg.network)) [
        | inl solana ↦
            let run : credit_solana reg amount id sid now (with_balances m v) ≡ (ok tt, v') =
              ground (arith, can.found) in
            let (credited, balances, providers) =
              credit_solana-frame reg amount id sid now m v v' run in
            let undone =
              uncredit-credit_solana reg amount id sid now v (with_balances v.client_balances v')
                can.fresh credited in
            ground (arith, can.bounded)
        | inr other ↦
            let run : credit_multi_chain reg amount id sid now (with_balances m v) ≡ (ok tt, v') =
              ground (arith, can.found) in
            let (credited, balances, providers) =
              credit_multi_chain-frame reg amount id sid now m v v' run in
            let undone =
              uncredit-credit_multi_chain reg amount id sid now v
                (with_balances v.client_balances v') can.fresh_multi credited in
            ground (arith, can.bounded)
      ]
    ]
