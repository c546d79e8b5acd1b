-- ===== src/Enclave/Payment.antt =====
-- enclave/src/state.rs: the settlement of a direct payment, and the network test of
-- enclave/src/chain_adapter.rs that it makes.
use a.Prelude.{
  ℕ, ◌-◌, String, Bool, ◌||◌, Option, none, some, List, [], ◌∷◌, ◌++◌, length, take, if◌then◌else◌,
}
use a.Prelude.Int.{ℤ}
use a.Prelude.Equality.{Pubkey, ◌==◌, nat_eq, bytes_eq, string_eq, remove}
use a.Prelude.Codec.{as_bytes}
use a.Prelude.Map.{lookup, insert, erase}
use a.Prelude.Outcome.{get, pure, lift, or_raise, when, add_u64, ◌>>=◌, ◌>>◌}
use a.Enclave.Error.{client_not_found, provider_not_found}
use a.Enclave.State.{ProviderCredit, MultiChainProviderCredit, ProviderRegistration}
use a.Enclave.Access.{Vault, modify, at_balance}
use a.Enclave.Balance.{release_locked, add_locked}

unfoldable pub starts_with : String → String → Bool
starts_with text start = take (length (as_bytes start)) (as_bytes text) == as_bytes start

-- `parse_network(network)` is a Solana network: its test comes first.
unfoldable pub is_solana_network : String → Bool
unfolding starts_with
is_solana_network network = starts_with network "solana:" || network == "solana-localnet"

-- `entry(provider_id).or_insert_with(..)`
abbrev pub credit_or_new :
    Option ProviderCredit → ProviderRegistration → String → ℤ → ProviderCredit
credit_or_new none provider provider_id now = record {
  provider_id = provider_id;
  settlement_token_account = provider.settlement_token_account;
  credited_amount = 0;
  oldest_credit_at = now;
  settlement_ids = [];
}
credit_or_new (some credit) provider provider_id now = credit

abbrev pub multi_chain_credit_or_new :
    Option MultiChainProviderCredit → ProviderRegistration → String → ℤ → MultiChainProviderCredit
multi_chain_credit_or_new none provider provider_id now = record {
  provider_id = provider_id;
  network = provider.network;
  asset_id = provider.asset_id;
  settlement_address = provider.settlement_address;
  credited_amount = 0;
  oldest_credit_at = now;
  settlement_ids = [];
}
multi_chain_credit_or_new (some credit) provider provider_id now = credit

unfoldable pub credit_solana : ProviderRegistration → ℕ → String → String → ℤ → Vault Unit
credit_solana provider amount provider_id settlement_id now = do
  v ← get
  let credit = credit_or_new (lookup provider_id v.provider_credits) provider provider_id now
  credited_amount ← lift (add_u64 credit.credited_amount amount)
  modify (λ u. record u {
    provider_credits =
        insert provider_id
          (record credit {
            credited_amount = credited_amount;
            settlement_ids = credit.settlement_ids ++ settlement_id ∷ [];
          })
          u.provider_credits;
  })

unfoldable pub credit_multi_chain : ProviderRegistration → ℕ → String → String → ℤ → Vault Unit
credit_multi_chain provider amount provider_id settlement_id now = do
  v ← get
  let credit =
      multi_chain_credit_or_new (lookup provider_id v.multi_chain_provider_credits) provider
        provider_id now
  credited_amount ← lift (add_u64 credit.credited_amount amount)
  modify (λ u. record u {
    multi_chain_provider_credits =
        insert provider_id
          (record credit {
            credited_amount = credited_amount;
            settlement_ids = credit.settlement_ids ++ settlement_id ∷ [];
          })
          u.multi_chain_provider_credits;
  })

unfoldable pub settle_payment : Pubkey → ℕ → String → String → ℤ → Vault Unit
unfolding is_solana_network credit_solana credit_multi_chain
settle_payment client amount provider_id settlement_id now = do
  at_balance client client_not_found (release_locked amount)
  v ← get
  provider ← or_raise (lookup provider_id v.providers) provider_not_found
  if is_solana_network provider.network
      then credit_solana provider amount provider_id settlement_id now
      else credit_multi_chain provider amount provider_id settlement_id now

-- `credited_amount == 0 || settlement_ids.is_empty()`
unfoldable pub is_spent : ℕ → List String → Bool
is_spent credited_amount settlement_ids = credited_amount == 0 || length settlement_ids == 0

unfoldable pub uncredit_solana : ℕ → String → String → Vault Unit
unfolding is_spent
uncredit_solana amount provider_id settlement_id = do
  v ← get
  credit ← or_raise (lookup provider_id v.provider_credits) provider_not_found
  let credited_amount = credit.credited_amount - amount
  let settlement_ids = remove credit.settlement_ids settlement_id
  modify (λ u. record u {
    provider_credits =
        insert provider_id
          (record credit { credited_amount = credited_amount; settlement_ids = settlement_ids })
          u.provider_credits;
  })
  when (is_spent credited_amount settlement_ids)
      (modify (λ u. record u { provider_credits = erase provider_id u.provider_credits }))

unfoldable pub uncredit_multi_chain : ℕ → String → String → Vault Unit
unfolding is_spent
uncredit_multi_chain amount provider_id settlement_id = do
  v ← get
  credit ← or_raise (lookup provider_id v.multi_chain_provider_credits) provider_not_found
  let credited_amount = credit.credited_amount - amount
  let settlement_ids = remove credit.settlement_ids settlement_id
  modify (λ u. record u {
    multi_chain_provider_credits =
        insert provider_id
          (record credit { credited_amount = credited_amount; settlement_ids = settlement_ids })
          u.multi_chain_provider_credits;
  })
  when (is_spent credited_amount settlement_ids) (
      modify (λ u. record u {
        multi_chain_provider_credits = erase provider_id u.multi_chain_provider_credits;
      }))

-- `if let Some(provider) = self.providers.get(provider_id)`
unfoldable pub uncredit : Option ProviderRegistration → ℕ → String → String → Vault Unit
unfolding is_solana_network uncredit_solana uncredit_multi_chain
uncredit none amount provider_id settlement_id = pure tt
uncredit (some provider) amount provider_id settlement_id =
    if is_solana_network provider.network
    then uncredit_solana amount provider_id settlement_id
    else uncredit_multi_chain amount provider_id settlement_id

unfoldable pub rollback_settle_payment : Pubkey → ℕ → String → String → Vault Unit
unfolding uncredit
rollback_settle_payment client amount provider_id settlement_id = do
  at_balance client client_not_found (add_locked amount)
  v ← get
  uncredit (lookup provider_id v.providers) amount provider_id settlement_id
