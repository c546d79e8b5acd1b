-- ===== src/Enclave/Backing/Payment.antt =====
-- Settling a direct payment (enclave/src/state.rs) moves the client's locked funds to the provider's
-- credit.
use a.Prelude.{
  ℕ, ◌+◌, ◌-◌, ◌<◌, ◌≡◌, ◌≢◌, String, Option, some, none, [], ◌∷◌, ◌++◌, arith, inl, inr,
  Option-cases, Bool-cases, u64_mod,
}
use a.Prelude.Int.{ℤ}
use a.Prelude.Equality.{Pubkey, nat_eq, string_eq, bytes_eq}
use a.Prelude.Map.{lookup, insert, sum_by-insert, sum_by-insert_new, le-sum_by}
use a.Prelude.Outcome.{Result, ok, add_u64}
use a.Enclave.Error.{EnclaveError, client_not_found}
use a.Enclave.State.{
  ClientBalance, ProviderCredit, MultiChainProviderCredit, ProviderRegistration, VaultState,
}
use a.Enclave.Balance.{release_locked}
use a.Enclave.Payment.{
  is_solana_network, credit_or_new, multi_chain_credit_or_new, credit_solana, credit_multi_chain,
  settle_payment,
}
use a.Enclave.Backing.{IsBacked, credit_of, multi_chain_credit_of, funds}
use a.Enclave.Backing.Balance.{
  plus, with_balance, funds-with_balance, holdings-le-funds, locked_client,
}
use a.Enclave.Backing.Reserve.{at_balance_found, unlock-IsBacked}
use a.Enclave.Backing.Close.{with_credit, with_credit-IsBacked}

-- What an action that credits a provider leaves.
abbrev Credits : (Pubkey → ℕ) → ℕ → VaultState → Result EnclaveError Unit × VaultState → Type 0
Credits others amount v out =
    (v' : VaultState) × (out ≡ (ok tt, v')) × IsBacked others v' × (funds v' ≡ funds v + amount)

module _ (others : Pubkey → ℕ) (reg : ProviderRegistration) (amount : ℕ) (id sid : String) (now : ℤ)
    (v : VaultState) (w : IsBacked others v) (fits : funds v + amount < u64_mod) where
  abbrev raised : Option ProviderCredit → ProviderCredit
  raised old =
      let credit = credit_or_new old reg id now in
      record credit {
        credited_amount = credit.credited_amount + amount;
        settlement_ids = credit.settlement_ids ++ sid ∷ [];
      }

  abbrev multi_raised : Option MultiChainProviderCredit → MultiChainProviderCredit
  multi_raised old =
      let credit = multi_chain_credit_or_new old reg id now in
      record credit {
        credited_amount = credit.credited_amount + amount;
        settlement_ids = credit.settlement_ids ++ sid ∷ [];
      }

  abbrev with_multi : VaultState
  with_multi = record v {
    multi_chain_provider_credits =
        insert id (multi_raised (lookup id v.multi_chain_provider_credits))
          v.multi_chain_provider_credits;
  }

  credit_solana-Credits : Credits others amount v (credit_solana reg amount id sid now v)
  unfolding credit_solana add_u64
  credit_solana-Credits =
      let credit = raised (lookup id v.provider_credits) in
      let grown : funds (with_credit id credit v) ≡ funds v + amount =
        elim (Option-cases (lookup id v.provider_credits)) [
          | inl new ↦
              rw new
                (omega (arith, sum_by-insert_new credit_of id (raised none) v.provider_credits new))
          | inr (credit, old) ↦ rw old (
              omega (
                arith,
                sum_by-insert credit_of id (raised (some credit)) credit v.provider_credits old,
              ))
        ] in
      (
        with_credit id credit v,
        elim (Option-cases (lookup id v.provider_credits)) [
          | inl new ↦ ground arith
          | inr (credit, old) ↦ ground (arith, le-sum_by credit_of id credit v.provider_credits old)
        ],
        with_credit-IsBacked others id credit v w (omega arith),
        grown,
      )

  credit_multi_chain-Credits : Credits others amount v (credit_multi_chain reg amount id sid now v)
  unfolding credit_multi_chain add_u64
  credit_multi_chain-Credits =
      let grown : funds with_multi ≡ funds v + amount =
        elim (Option-cases (lookup id v.multi_chain_provider_credits)) [
          | inl new ↦ rw new (
              omega (
                arith,
                sum_by-insert_new multi_chain_credit_of id (multi_raised none)
                    v.multi_chain_provider_credits new,
              ))
          | inr (credit, old) ↦ rw old (
              omega (
                arith,
                sum_by-insert multi_chain_credit_of id (multi_raised (some credit)) credit
                    v.multi_chain_provider_credits old,
              ))
        ] in
      (
        with_multi,
        elim (Option-cases (lookup id v.multi_chain_provider_credits)) [
          | inl new ↦ ground arith
          | inr (credit, old) ↦
              ground (
                arith,
                le-sum_by multi_chain_credit_of id credit v.multi_chain_provider_credits old,
              )
        ],
        record {
          balances_map = w.balances_map;
          channels_map = w.channels_map;
          withdrawals_map = w.withdrawals_map;
          credits_map = w.credits_map;
          consistent = w.consistent;
          covered = w.covered;
          supply = omega arith;
        },
        grown,
      )

-- Where a vault is backed with an amount locked for a client outside channels and withdrawals,
-- settling a payment of that amount to a registered provider, on Solana or another chain, succeeds,
-- leaves the vault backed without that lock, and keeps the money.
pub settle_payment-succeeds :
    (others : Pubkey → ℕ) (client : Pubkey) (amount : ℕ) (id sid : String) (now : ℤ)
    (v : VaultState)
    → IsBacked (plus others client amount) v
    → 0 < amount
    → lookup id v.providers ≢ none
    → (v' : VaultState) × (settle_payment client amount id sid now v ≡ (ok tt, v'))
      × IsBacked others v'
      × (funds v' ≡ funds v)
unfolding settle_payment
settle_payment-succeeds others client amount id sid now v w positive known =
    let (b, found, enough) = locked_client others client amount v w positive in
    let b' : ClientBalance = record b { locked = b.locked - amount } in
    let v1 = with_balance client b' v in
    let w1 = unlock-IsBacked others client amount v b b' w found (omega arith) (omega arith) in
    let moved = funds-with_balance client b b' v found in
    let held = holdings-le-funds client b b v found in
    let released = at_balance_found client client_not_found (release_locked amount) v b found in
    elim (Option-cases (lookup id v.providers)) [
      | inl unknown ↦ absurd (known unknown)
      | inr (reg, registered) ↦ elim (Bool-cases (is_solana_network reg.network)) [
        | inl solana ↦
            let (v2, done, w2, grown) =
              credit_solana-Credits others reg amount id sid now v1 w1 (omega (arith, w.supply)) in
            (v2, ground arith, w2, omega arith)
        | inr other ↦
            let (v2, done, w2, grown) =
              credit_multi_chain-Credits others reg amount id sid now v1 w1
                (omega (arith, w.supply)) in
            (v2, ground arith, w2, omega arith)
      ]
    ]
